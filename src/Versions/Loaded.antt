-- ===== src/Versions/Loaded.antt =====
-- The catalog that loadJobCatalog of build/validate_demands.go returns where it fails on no job.
use maand.Prelude.{
  String, true, some, List, [], ◌∷◌, ◌≡◌, ◌⊎◌, refl, sym, ap, ◌∙◌, arith, ◌==◌, ==_iff, ==_refl,
  comparable_String, contains, lookup, lookup-put, lookup-put_self, Result, ok, err, bind-ok,
  Bool-cases, inl, inr,
}
use maand.Versions.{Version, DemandError}
use maand.Versions.Demands.{
  DemandManifest, JobCatalog, resolve_job_version, command_set, manifest_or_empty, empty_catalog,
  with_manifest, with_version, load_manifests, load_versions,
}

abbrev loaded_or_empty : Result DemandError JobCatalog → JobCatalog
loaded_or_empty (err e) = empty_catalog
loaded_or_empty (ok cat) = cat

module _ (get_job_manifest : String → Result DemandError DemandManifest) (names : List String) where
  -- Each manifest of the catalog is one of the workspace, with its commands.
  abbrev pub Entry : JobCatalog → String → DemandManifest → Type 0
  Entry cat j m =
      (contains j names ≡ true)
      × (get_job_manifest j ≡ ok m)
      × (lookup j cat.commands ≡ some (command_set [] m.commands))

  abbrev pub Entries : JobCatalog → Type 0
  Entries cat = (j : String) (m : DemandManifest) → lookup j cat.manifests ≡ some m → Entry cat j m

  Entries-with_manifest :
      (cat : JobCatalog) (name : String) (m : DemandManifest)
      → contains name names ≡ true
      → get_job_manifest name ≡ ok m
      → Entries cat
      → Entries (with_manifest name m cat)
  Entries-with_manifest cat name m there got e j m' h = elim (Bool-cases (j == name)) [
    | inl same ↦
        let p : j ≡ name = (==_iff j name).0 same in
        let q : some m ≡ some m' = sym (lookup-put name j m cat.manifests ∙ rw same refl) ∙ h in
        let r : m' ≡ m = sym (ap manifest_or_empty q) in
        rw p (rw r (there, got, lookup-put_self name (command_set [] m.commands) cat.commands))
    | inr other ↦
        let old = e j m' (sym (lookup-put name j m cat.manifests ∙ rw other refl) ∙ h) in
        (
          old.0,
          old.1,
          lookup-put name j (command_set [] m.commands) cat.commands ∙ rw other (old.2),
        )
  ]

  pub Entries-load_manifests :
      (cat loaded : JobCatalog) (rest : List String)
      → ((j : String) → contains j rest ≡ true → contains j names ≡ true)
      → Entries cat
      → load_manifests get_job_manifest cat rest ≡ ok loaded
      → Entries loaded
  unfolding load_manifests contains
  Entries-load_manifests cat loaded [] sub e h =
      let same : cat ≡ loaded = ap loaded_or_empty h in rw (sym same) e
  Entries-load_manifests cat loaded (name ∷ rest) sub e h =
      let (m, got, next) =
        bind-ok (get_job_manifest name)
          (λ m. load_manifests get_job_manifest (with_manifest name m cat) rest) loaded h in
      Entries-load_manifests (with_manifest name m cat) loaded rest
        (λ j k. sub j (ground (arith, k)))
        (Entries-with_manifest cat name m (sub name (ground (arith, ==_refl name))) got e) next

  -- Each of the names has an entry.
  abbrev pub Listed : JobCatalog → String → Type 0
  Listed cat j = (m : DemandManifest) × (lookup j cat.manifests ≡ some m)

  Listed-with_manifest :
      (cat : JobCatalog) (name j : String) (m : DemandManifest)
      → Listed cat j
      → Listed (with_manifest name m cat) j
  Listed-with_manifest cat name j m (m', h) = elim (Bool-cases (j == name)) [
    | inl same ↦ (m, lookup-put name j m cat.manifests ∙ rw same refl)
    | inr other ↦ (m', lookup-put name j m cat.manifests ∙ rw other h)
  ]

  Listed-kept :
      (cat loaded : JobCatalog) (rest : List String) (j : String)
      → Listed cat j
      → load_manifests get_job_manifest cat rest ≡ ok loaded
      → Listed loaded j
  unfolding load_manifests
  Listed-kept cat loaded [] j l h =
      let same : cat ≡ loaded = ap loaded_or_empty h in rw (sym same) l
  Listed-kept cat loaded (name ∷ rest) j l h =
      let (m, got, next) =
        bind-ok (get_job_manifest name)
          (λ m. load_manifests get_job_manifest (with_manifest name m cat) rest) loaded h in
      Listed-kept (with_manifest name m cat) loaded rest j (Listed-with_manifest cat name j m l)
        next

  pub Listed-load_manifests :
      (cat loaded : JobCatalog) (rest : List String) (j : String)
      → contains j rest ≡ true
      → load_manifests get_job_manifest cat rest ≡ ok loaded
      → Listed loaded j
  unfolding load_manifests contains
  Listed-load_manifests cat loaded [] j there h = absurd (cc)
  Listed-load_manifests cat loaded (name ∷ rest) j there h =
      let (m, got, next) =
        bind-ok (get_job_manifest name)
          (λ m. load_manifests get_job_manifest (with_manifest name m cat) rest) loaded h in
      elim (Bool-cases (j == name)) [
        | inl same ↦
            Listed-kept (with_manifest name m cat) loaded rest j
              (m, lookup-put name j m cat.manifests ∙ rw same refl) next
        | inr other ↦
            Listed-load_manifests (with_manifest name m cat) loaded rest j
              (ground (arith, there, other)) next
      ]

-- The version that a job of the catalog is resolved to.
abbrev pub version_at : JobCatalog → String → Result DemandError Version
version_at cat j = resolve_job_version cat.manifests j (manifest_or_empty (lookup j cat.manifests))

abbrev pub Versioned : JobCatalog → String → Type 0
Versioned cat j = (v : Version) × (version_at cat j ≡ ok v) × (lookup j cat.versions ≡ some v)

pub load_versions-same :
    (cat loaded : JobCatalog) (rest : List String)
    → load_versions cat rest ≡ ok loaded
    → (loaded.manifests ≡ cat.manifests) × (loaded.commands ≡ cat.commands)
unfolding load_versions
load_versions-same cat loaded [] h =
    let same : cat ≡ loaded = ap loaded_or_empty h in rw (sym same) (refl, refl)
load_versions-same cat loaded (name ∷ rest) h =
    let (v, got, next) =
      bind-ok (version_at cat name) (λ v. load_versions (with_version name v cat) rest) loaded h in
    load_versions-same (with_version name v cat) loaded rest next

Versioned-fresh :
    (cat : JobCatalog) (name j : String) (v : Version)
    → version_at cat name ≡ ok v
    → j == name ≡ true
    → Versioned (with_version name v cat) j
Versioned-fresh cat name j v got same =
    let p : j ≡ name = (==_iff j name).0 same in
    (v, rw p got, lookup-put name j v cat.versions ∙ rw same refl)

Versioned-with_version :
    (cat : JobCatalog) (name j : String) (v : Version)
    → version_at cat name ≡ ok v
    → Versioned cat j
    → Versioned (with_version name v cat) j
Versioned-with_version cat name j v got (w, h, there) = elim (Bool-cases (j == name)) [
  | inl same ↦ Versioned-fresh cat name j v got same
  | inr other ↦ (w, h, lookup-put name j v cat.versions ∙ rw other there)
]

pub Versioned-load_versions :
    (cat loaded : JobCatalog) (rest : List String) (j : String)
    → (contains j rest ≡ true) ⊎ Versioned cat j
    → load_versions cat rest ≡ ok loaded
    → Versioned loaded j
unfolding load_versions contains
Versioned-load_versions cat loaded [] j (inl there) h = absurd (cc)
Versioned-load_versions cat loaded [] j (inr v) h =
    let same : cat ≡ loaded = ap loaded_or_empty h in rw (sym same) v
Versioned-load_versions cat loaded (name ∷ rest) j here h =
    let (v, got, next) =
      bind-ok (version_at cat name) (λ v. load_versions (with_version name v cat) rest) loaded h in
    Versioned-load_versions (with_version name v cat) loaded rest j (pass here v got) next
  where
    pass :
        ((contains j (name ∷ rest) ≡ true) ⊎ Versioned cat j)
        → (v : Version) → version_at cat name ≡ ok v
        → (contains j rest ≡ true) ⊎ Versioned (with_version name v cat) j
    pass (inr old) v got = inr (Versioned-with_version cat name j v got old)
    pass (inl there) v got = elim (Bool-cases (j == name)) [
      | inl same ↦ inr (Versioned-fresh cat name j v got same)
      | inr other ↦ inl (ground (arith, there, other))
    ]
