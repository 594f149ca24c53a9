-- ===== src/Kv/Secrets.antt =====
-- kv/encrypt.go and kv/secret.go: encrypted values. The key file, the random numbers, AES-GCM and base64
-- are parameters; a byte slice is a text here, one character for each byte.
use maand.Prelude.{
  ℕ, String, Bool, false, Option, none, some, ◌≡◌, refl, arith, ℤ, if◌then◌else◌, Result, ok, err,
  ltb, comparable_String, Bool-cases, Option-cases, inl, inr,
}
use maand.Text.{concat_text, length_text, take_text, drop_text, has_prefix, trim_prefix}
use maand.Text.Prefix.{
  has_prefix-concat_text, trim_prefix-concat_text, take_text-concat_text, drop_text-concat_text,
  length-concat_text,
}
use maand.Kv.{Entry, Store, KvError, get, put_value}
use maand.Kv.Client.{get-put_value}

pub record Vault : Type 0 where
  pub key_loads : Bool
  pub nonce_size : ℕ
  pub random : Option String
  pub encode : String → String
  pub decode : String → Option String
  pub gcm_seal : String → String → String
  pub gcm_open : String → String → Option String

-- What the code relies on: a nonce of the size that was asked for, base64 that decodes what it encoded,
-- and a cipher that opens what it sealed with the same nonce.
pub record IsVault (v : Vault) : Type 0 where
  pub full_nonce : (nonce : String) → v.random ≡ some nonce → length_text nonce ≡ v.nonce_size
  pub decode-encode : (raw : String) → v.decode (v.encode raw) ≡ some raw
  pub open-seal :
      (nonce plaintext : String) → v.gcm_open nonce (v.gcm_seal nonce plaintext) ≡ some plaintext

pub data SecretError : Type 0 where
  encryption_key_missing not_encrypted decrypt_failed random_failed : SecretError
  from_store : KvError → SecretError

abbrev pub encrypted_value_prefix : String
encrypted_value_prefix = "enc:v1:"

unfoldable pub is_encrypted_value : String → Bool
is_encrypted_value value = has_prefix value encrypted_value_prefix

abbrev pub sealed_with : Vault → String → Option String → Result SecretError String
sealed_with v plaintext none = err random_failed
sealed_with v plaintext (some nonce) =
    ok (
      concat_text encrypted_value_prefix
        (v.encode (concat_text nonce (v.gcm_seal nonce plaintext))))

unfoldable pub encrypt_plaintext : Vault → String → Result SecretError String
encrypt_plaintext v plaintext =
    if v.key_loads then sealed_with v plaintext v.random else err encryption_key_missing

abbrev pub opened : Option String → Result SecretError String
opened none = err decrypt_failed
opened (some plaintext) = ok plaintext

abbrev pub open_raw : Vault → Option String → Result SecretError String
open_raw v none = err decrypt_failed
open_raw v (some raw) =
    if ltb (length_text raw) v.nonce_size
    then err decrypt_failed
    else opened (v.gcm_open (take_text v.nonce_size raw) (drop_text v.nonce_size raw))

unfoldable pub decrypt_stored_value : Vault → String → Result SecretError String
unfolding is_encrypted_value
decrypt_stored_value v stored =
    if is_encrypted_value stored
    then (if v.key_loads
        then open_raw v (v.decode (trim_prefix stored encrypted_value_prefix))
        else err encryption_key_missing)
    else err not_encrypted

-- What PutSecret stores of the result of EncryptPlaintext.
abbrev pub stored_secret :
    String → String → ℤ → Store → Result SecretError String → Result SecretError Store
stored_secret namespace key ttl s (err e) = err e
stored_secret namespace key ttl s (ok encrypted) =
    ok (put_value namespace key encrypted ttl false s)

-- PutSecret: the new store, or the error that leaves the store as it is.
unfoldable pub put_secret : Vault → String → String → String → ℤ → Store → Result SecretError Store
unfolding encrypt_plaintext
put_secret v namespace key plaintext ttl s =
    stored_secret namespace key ttl s (encrypt_plaintext v plaintext)

abbrev pub revealed : Vault → Result KvError Entry → Result SecretError String
revealed v (err e) = err (from_store e)
revealed v (ok entry) = decrypt_stored_value v entry.value

unfoldable pub get_secret : Vault → String → String → Store → Result SecretError String
unfolding decrypt_stored_value
get_secret v namespace key s = revealed v (get namespace key s)

open_raw-sealed :
    (v : Vault) (nonce plaintext : String)
    → IsVault v
    → length_text nonce ≡ v.nonce_size
    → open_raw v (some (concat_text nonce (v.gcm_seal nonce plaintext))) ≡ ok plaintext
open_raw-sealed v nonce plaintext laws size =
    let sealed = v.gcm_seal nonce plaintext in
    let long : ltb (length_text (concat_text nonce sealed)) v.nonce_size ≡ false =
      rw (length-concat_text nonce sealed) (rw size (ground arith)) in
    rw long (
      rw (← size) (
        rw (take_text-concat_text nonce sealed, drop_text-concat_text nonce sealed)
          (rw (laws.open-seal nonce plaintext) refl)))

-- DecryptStoredValue gives back what EncryptPlaintext was given, with the same key.
pub decrypt-encrypt :
    (v : Vault) (plaintext stored : String)
    → IsVault v
    → encrypt_plaintext v plaintext ≡ ok stored
    → decrypt_stored_value v stored ≡ ok plaintext
unfolding encrypt_plaintext decrypt_stored_value is_encrypted_value
decrypt-encrypt v plaintext stored laws h = elim (Bool-cases v.key_loads) [
  | inr missing ↦ absurd (cc (rw missing at h))
  | inl loads ↦ elim (Option-cases v.random) [
    | inl failed ↦ absurd (cc (rw (loads, failed) at h))
    | inr (nonce, drawn) ↦
        let sealed = v.gcm_seal nonce plaintext in
        let raw = concat_text nonce sealed in
        let e : concat_text encrypted_value_prefix (v.encode raw) ≡ stored =
          ground (arith, rw (loads, drawn) at h) in
        rw (← e) (
          rw (has_prefix-concat_text encrypted_value_prefix (v.encode raw)) (
            rw loads (
              rw (trim_prefix-concat_text encrypted_value_prefix (v.encode raw)) (
                rw (laws.decode-encode raw)
                  (open_raw-sealed v nonce plaintext laws (laws.full_nonce nonce drawn))))))
  ]
]

-- A secret that PutSecret has stored is what GetSecret returns, not trimmed, if the key file is read
-- both times and the cipher opens what it sealed.
pub get_secret-put_secret :
    (v : Vault) (n k plaintext : String) (ttl : ℤ) (s s' : Store)
    → IsVault v
    → put_secret v n k plaintext ttl s ≡ ok s'
    → get_secret v n k s' ≡ ok plaintext
unfolding put_secret get_secret
get_secret-put_secret v n k plaintext ttl s s' laws h = split (encrypt_plaintext v plaintext) refl h
  where
    split :
        (r : Result SecretError String)
        → encrypt_plaintext v plaintext ≡ r
        → stored_secret n k ttl s r ≡ ok s'
        → revealed v (get n k s') ≡ ok plaintext
    split (err e) q g = absurd (cc)
    split (ok stored) q g =
        let e : put_value n k stored ttl false s ≡ s' = ground arith in
        let t = get-put_value n k stored ttl false s in
        rw (← e) (rw t.1 (rw t.2 (decrypt-encrypt v plaintext stored laws q)))
