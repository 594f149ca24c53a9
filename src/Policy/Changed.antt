-- ===== src/Policy/Changed.antt =====
-- The paths that DiffFileManifests of data/file_manifest.go finds.
use maand.Prelude.{
  String, Bool, true, false, not, ◌&&◌, ◌||◌, Option, none, some, List, [], ◌∷◌, ◌++◌, ◌≡◌, refl,
  ap, ◌∙◌, arith, ◌==◌, ==_iff, comparable_String, contains, contains-append, Distinct, lookup,
  keys, Bool-cases, inl, inr,
}
use maand.Policy.{
  FileManifest, has_hash, changed_files, is_file, deleted_files, insert_text, sort_texts,
  diff_file_manifests,
}

-- Whether two manifests differ at a path.
abbrev pub differs : Option String → Option String → Bool
differs none none = false
differs none (some hash) = true
differs (some previous) none = true
differs (some previous) (some hash) = not (previous == hash)

contains-insert_text :
    (x y : String) (ys : List String) → contains x (insert_text y ys) ≡ ((x == y) || contains x ys)
unfolding insert_text contains
contains-insert_text x y [] = refl
contains-insert_text x y (z ∷ ys) = ground (arith, contains-insert_text x y ys)

pub contains-sort_texts :
    (x : String) (xs : List String) → contains x (sort_texts xs) ≡ contains x xs
unfolding sort_texts contains
contains-sort_texts x [] = refl
contains-sort_texts x (y ∷ xs) =
    contains-insert_text x y (sort_texts xs) ∙ ap (λ b. (x == y) || b) (contains-sort_texts x xs)

abbrev new_hash : Option String → Option String → Bool
new_hash previous none = false
new_hash previous (some hash) = not (has_hash hash previous)

not_listed :
    (x : String) (previous current : FileManifest)
    → contains x (keys current) ≡ false
    → contains x (changed_files previous current) ≡ false
unfolding changed_files contains keys
not_listed x previous [] h = refl
not_listed x previous ((path, hash) ∷ current) h = ground (arith, h, not_listed x previous current)

contains-changed_files :
    (x : String) (previous current : FileManifest)
    → Distinct (keys current)
    → contains x (changed_files previous current) ≡ new_hash (lookup x previous) (lookup x current)
unfolding changed_files contains lookup keys
contains-changed_files x previous [] d = refl
contains-changed_files x previous ((path, hash) ∷ current) d = elim (Bool-cases (x == path)) [
  | inr other ↦ rw other (ground (arith, other, contains-changed_files x previous current d.1))
  | inl same ↦
      let e : x ≡ path = (==_iff x path).0 same in
      rw same (
        ground (
          arith,
          same,
          not_listed x previous current (rw e d.0),
          ap (λ (y : String). has_hash hash (lookup y previous)) e,
        ))
]

contains-deleted_files :
    (x : String) (current previous : FileManifest) (seen : List String)
    → contains x (deleted_files current seen previous)
      ≡ (contains x (keys previous) && (not (is_file (lookup x current)) && not (contains x seen)))
unfolding deleted_files contains keys
contains-deleted_files x current [] seen = refl
contains-deleted_files x current ((path, hash) ∷ previous) seen = ground (
  arith,
  contains-deleted_files x current previous seen,
  ==_iff x path,
  λ (p : x ≡ path). ap (λ (y : String). is_file (lookup y current)) p,
  λ (p : x ≡ path). ap (λ (y : String). contains y seen) p,
)

contains-keys : (x : String) (m : FileManifest) → contains x (keys m) ≡ is_file (lookup x m)
unfolding lookup keys contains
contains-keys x [] = refl
contains-keys x ((path, hash) ∷ m) = ground (arith, contains-keys x m)

by_files :
    (p c : Option String)
    → (new_hash p c || (is_file p && (not (is_file c) && not (new_hash p c)))) ≡ differs p c
by_files none none = refl
by_files none (some hash) = refl
by_files (some previous) none = refl
by_files (some previous) (some hash) = ground arith

-- DiffFileManifests lists a path exactly if the two manifests have different hashes for it, or one of
-- them has none.
pub contains-diff_file_manifests :
    (x : String) (previous current : FileManifest)
    → Distinct (keys current)
    → contains x (diff_file_manifests previous current)
      ≡ differs (lookup x previous) (lookup x current)
unfolding diff_file_manifests
contains-diff_file_manifests x previous current d =
    let changed = changed_files previous current in
    contains-sort_texts x (changed ++ deleted_files current changed previous)
    ∙ contains-append x changed (deleted_files current changed previous)
    ∙ rw (contains-deleted_files x current previous changed) (
        rw (contains-changed_files x previous current d)
          (rw (contains-keys x previous) (by_files (lookup x previous) (lookup x current))))
