-- ===== src/Versions/Constraint.antt =====
-- ParseVersionConstraint and Satisfies of workspace/demands.go.
use maand.Prelude.{
  Bool, true, false, not, ◌&&◌, Option, none, some, ◌≡◌, refl, arith, ◌↔◌, Result, ok, err, ◌>>=◌,
  Bool-cases, inl, inr,
}
use maand.Versions.{
  Version, VersionConstraint, DemandError, read_bound, bounds_crossed, check_bounds,
  parse_version_constraint, below_min, above_max, satisfies,
}
use maand.Versions.Compare.{at_most, at_most_trans, compare_versions-zero}

-- The bounds hold of a version.
abbrev pub at_least_min : Option Version → Version → Bool
at_least_min none v = true
at_least_min (some lo) v = at_most lo v

abbrev pub at_most_max : Option Version → Version → Bool
at_most_max none v = true
at_most_max (some hi) v = at_most v hi

below_min_lem : (lo : Option Version) (v : Version) → below_min lo v ≡ not (at_least_min lo v)
unfolding below_min
below_min_lem none v = refl
below_min_lem (some lo) v = ground (arith, (compare_versions-zero v lo).1)

above_max_lem : (hi : Option Version) (v : Version) → above_max hi v ≡ not (at_most_max hi v)
unfolding above_max
above_max_lem none v = refl
above_max_lem (some hi) v = ground arith

-- Satisfies accepts exactly the versions from the lower bound to the upper one, where there is one.
pub satisfies_iff :
    (c : VersionConstraint) (v : Version)
    → (satisfies c v ≡ ok tt) ↔ ((at_least_min c.min v && at_most_max c.max v) ≡ true)
unfolding satisfies
satisfies_iff c v = (
  λ h. ground (arith, h, below_min_lem c.min v, above_max_lem c.max v),
  λ h. ground (arith, h, below_min_lem c.min v, above_max_lem c.max v),
)

-- Between two versions that satisfy a constraint, each version satisfies it.
pub satisfies_between :
    (c : VersionConstraint) (u v w : Version)
    → at_most u v ≡ true
    → at_most v w ≡ true
    → satisfies c u ≡ ok tt
    → satisfies c w ≡ ok tt
    → satisfies c v ≡ ok tt
satisfies_between c u v w h k su sw = (satisfies_iff c v).1 (
    both (from_min c.min (ground (arith, (satisfies_iff c u).0 su)))
      (to_max c.max (ground (arith, (satisfies_iff c w).0 sw))))
  where
    both :
        at_least_min c.min v ≡ true
        → at_most_max c.max v ≡ true
        → (at_least_min c.min v && at_most_max c.max v) ≡ true
    both a b = ground (arith, a, b)

    from_min : (lo : Option Version) → at_least_min lo u ≡ true → at_least_min lo v ≡ true
    from_min none x = refl
    from_min (some lo) x = at_most_trans lo u v x h

    to_max : (hi : Option Version) → at_most_max hi w ≡ true → at_most_max hi v ≡ true
    to_max none x = refl
    to_max (some hi) x = at_most_trans v w hi k x

at_most_refl : (v : Version) → at_most v v ≡ true
at_most_refl v = ground (arith, (compare_versions-zero v v).0.1 refl)

-- The version that an accepted constraint is satisfied by.
abbrev pub example_version : VersionConstraint → Version
example_version c = elim c.min [
  | some lo ↦ lo
  | none ↦ elim c.max [
    | some hi ↦ hi
    | none ↦ record { major = 0; minor = 0; patch = 0; prerelease = "" }
  ]
]

not_crossed_satisfies :
    (lo hi : Option Version)
    → bounds_crossed lo hi ≡ false
    → satisfies (record { min = lo; max = hi }) (example_version (record { min = lo; max = hi }))
      ≡ ok tt
unfolding bounds_crossed
not_crossed_satisfies none none h = (satisfies_iff _ _).1 refl
not_crossed_satisfies none (some hi) h = (satisfies_iff _ _).1 (at_most_refl hi)
not_crossed_satisfies (some lo) none h = (satisfies_iff _ _).1 (rw (at_most_refl lo) refl)
not_crossed_satisfies (some lo) (some hi) h =
    (satisfies_iff _ _).1 (rw (at_most_refl lo) (ground (arith, h)))

accepted :
    (lo hi : Option (Result DemandError Version)) (c : VersionConstraint)
    → parse_version_constraint lo hi ≡ ok c
    → (min : Option Version) × (max : Option Version) × (read_bound lo ≡ ok min)
      × (read_bound hi ≡ ok max)
      × (bounds_crossed min max ≡ false)
      × (c ≡ record { min = min; max = max })
unfolding parse_version_constraint
accepted lo hi c h = first (read_bound lo) refl h
  where
    last :
        (min max : Option Version)
        → check_bounds min max ≡ ok c
        → (bounds_crossed min max ≡ false) × (c ≡ record { min = min; max = max })
    last min max h = elim (Bool-cases (bounds_crossed min max)) [
      | inl crossed ↦ absurd (cc (rw crossed at h))
      | inr fine ↦ (fine, ground (arith, h, fine))
    ]

    second :
        (min : Option Version) (r : Result DemandError (Option Version))
        → read_bound hi ≡ r
        → (r >>= λ max. check_bounds min max) ≡ ok c
        → (max : Option Version) × (read_bound hi ≡ ok max)
          × (bounds_crossed min max ≡ false)
          × (c ≡ record { min = min; max = max })
    second min (err e) q h = absurd (cc)
    second min (ok max) q h = let t = last min max h in (max, q, t.0, t.1)

    first :
        (r : Result DemandError (Option Version))
        → read_bound lo ≡ r
        → (r >>= λ min. read_bound hi >>= λ max. check_bounds min max) ≡ ok c
        → (min : Option Version) × (max : Option Version) × (read_bound lo ≡ ok min)
          × (read_bound hi ≡ ok max)
          × (bounds_crossed min max ≡ false)
          × (c ≡ record { min = min; max = max })
    first (err e) q h = absurd (cc)
    first (ok min) q h = let t = second min (read_bound hi) refl h in (min, t.0, q, t.1, t.2, t.3)

-- A constraint that ParseVersionConstraint accepts has the bounds of the configuration, and some
-- version satisfies it.
pub parse_version_constraint_satisfiable :
    (lo hi : Option (Result DemandError Version)) (c : VersionConstraint)
    → parse_version_constraint lo hi ≡ ok c
    → (read_bound lo ≡ ok c.min)
      × (read_bound hi ≡ ok c.max)
      × ((v : Version) × (satisfies c v ≡ ok tt))
parse_version_constraint_satisfiable lo hi c h =
    let t = accepted lo hi c h in
    rw t.5 (
      t.2,
      t.3,
      (example_version (record { min = t.0; max = t.1 }), not_crossed_satisfies t.0 t.1 t.4),
    )
