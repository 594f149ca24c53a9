-- ===== src/Versions/Compare.antt =====
-- Compare of workspace/version.go is a total order.
use maand.Prelude.{
  String, Bool, true, false, not, ◌&&◌, ◌||◌, ◌≡◌, refl, ◌∙◌, arith, ℤ, pos, negsuc, ltb, nat_beq,
  zero, suc, ltb_ℤ, if◌then◌else◌, ◌↔◌, Bool-cases, inl, inr,
}
use maand.Text.{is_empty, text_lt}
use maand.Text.Less.{text_lt_irrefl, text_lt_trans, text_lt_total}
use maand.Versions.{Version, compare_pairs, compare_prereleases, compare_versions}

-- `v.Compare(w) <= 0`
abbrev pub at_most : Version → Version → Bool
at_most v w = not (ltb_ℤ (pos 0) (compare_versions v w))

-- A prerelease stands before the release, and prereleases stand in the order of their texts.
unfoldable pub pre_lt : String → String → Bool
pre_lt p q = not (is_empty p) && (is_empty q || text_lt p q)

empty_text : (p : String) → is_empty p ≡ true → p ≡ ""
empty_text p h = ground arith

pre_lt_irrefl : (p : String) → pre_lt p p ≡ false
unfolding pre_lt
pre_lt_irrefl p = ground (arith, text_lt_irrefl p)

pre_lt_trans : (p q r : String) → pre_lt p q ≡ true → pre_lt q r ≡ true → pre_lt p r ≡ true
unfolding pre_lt
pre_lt_trans p q r h k = ground (arith, h, k, text_lt_trans p q r)

pre_lt_total : (p q : String) → pre_lt p q ≡ false → pre_lt q p ≡ false → p ≡ q
unfolding pre_lt
pre_lt_total p q h k = ground (arith, h, k, text_lt_total p q, empty_text p, empty_text q)

compare_prereleases_lem :
    (p q : String)
    → compare_prereleases p q
      ≡ (if pre_lt p q then negsuc 0 else if pre_lt q p then pos 1 else pos 0)
unfolding compare_prereleases pre_lt
compare_prereleases_lem p q = ground arith

-- The order of the numbers first, then that of the prereleases.
unfoldable pub version_lt : Version → Version → Bool
version_lt v w =
    ltb v.major w.major
    || (nat_beq v.major w.major
        && (ltb v.minor w.minor
            || (nat_beq v.minor w.minor
                && (ltb v.patch w.patch
                    || (nat_beq v.patch w.patch && pre_lt v.prerelease w.prerelease)))))

compare_versions_lem :
    (v w : Version)
    → compare_versions v w
      ≡ (if version_lt v w then negsuc 0 else if version_lt w v then pos 1 else pos 0)
unfolding compare_versions version_lt
compare_versions_lem v w =
    rw (compare_prereleases_lem v.prerelease w.prerelease) (unfold compare_pairs in ground arith)

version_lt_trans :
    (u v w : Version) → version_lt u v ≡ true → version_lt v w ≡ true → version_lt u w ≡ true
unfolding version_lt
version_lt_trans u v w h k =
    ground (arith, h, k, pre_lt_trans u.prerelease v.prerelease w.prerelease)

version_lt_irrefl : (v : Version) → version_lt v v ≡ false
unfolding version_lt
version_lt_irrefl v = ground (arith, pre_lt_irrefl v.prerelease)

version_eq :
    (v w : Version)
    → v.major ≡ w.major
    → v.minor ≡ w.minor
    → v.patch ≡ w.patch
    → v.prerelease ≡ w.prerelease
    → v ≡ w
version_eq v w a b c d = λ i. record { major = a i; minor = b i; patch = c i; prerelease = d i }

version_lt_total : (v w : Version) → version_lt v w ≡ false → version_lt w v ≡ false → v ≡ w
unfolding version_lt
version_lt_total v w h k =
    version_eq v w (ground (arith, h, k)) (ground (arith, h, k)) (ground (arith, h, k))
      (pre_lt_total v.prerelease w.prerelease (ground (arith, h, k)) (ground (arith, h, k)))

version_lt_flip : (v w : Version) → version_lt v w ≡ true → version_lt w v ≡ false
version_lt_flip v w h = ground (arith, h, version_lt_trans v w v h, version_lt_irrefl v)

abbrev pub negate : ℤ → ℤ
negate (pos zero) = pos 0
negate (pos (suc n)) = negsuc n
negate (negsuc n) = pos (suc n)

-- Compare is 0 exactly for equal versions, and the two orders of its arguments give opposite signs.
pub compare_versions-zero :
    (v w : Version)
    → ((compare_versions v w ≡ pos 0) ↔ (v ≡ w))
      × (compare_versions w v ≡ negate (compare_versions v w))
compare_versions-zero v w =
    let lem = compare_versions_lem v w in
    (
      (
        λ z. version_lt_total v w (ground (arith, z, lem)) (ground (arith, z, lem)),
        λ e. rw e (compare_versions_lem w w ∙ rw (version_lt_irrefl w) refl),
      ),
      ground (arith, lem, compare_versions_lem w v, version_lt_flip v w, version_lt_flip w v),
    )

at_most_lem : (v w : Version) → at_most v w ≡ not (version_lt w v)
at_most_lem v w = ground (arith, compare_versions_lem v w, version_lt_flip v w, version_lt_flip w v)

-- Compare is transitive.
pub at_most_trans : (u v w : Version) → at_most u v ≡ true → at_most v w ≡ true → at_most u w ≡ true
at_most_trans u v w h k = at_most_lem u w ∙ elim (Bool-cases (version_lt w u)) [
  | inr fine ↦ rw fine refl
  | inl bad ↦ elim (Bool-cases (version_lt u v)) [
    | inl less ↦ ground (arith, k, at_most_lem v w, version_lt_trans w u v bad less)
    | inr not_less ↦
        let e : u ≡ v = version_lt_total u v not_less (ground (arith, h, at_most_lem u v)) in
        ground (arith, k, at_most_lem v w, rw e at bad)
  ]
]

-- Compare is a total order of versions: it is 0 exactly for equal versions, the two orders of its
-- arguments give opposite signs, and it is transitive.
pub compare_versions_orders :
    (u v w : Version)
    → ((compare_versions u v ≡ pos 0) ↔ (u ≡ v))
      × (compare_versions v u ≡ negate (compare_versions u v))
      × (at_most u v ≡ true → at_most v w ≡ true → at_most u w ≡ true)
compare_versions_orders u v w = let t = compare_versions-zero u v in (t.0, t.1, at_most_trans u v w)
