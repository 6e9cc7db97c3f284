-- ===== src/Tools/Scopes/Resolved.antt =====
-- Where a path leads that `resolveWithin` of src/ai/tools/scopes/fs.scope.ts lets through.
use capybara_ai.Prelude.{
  String, ◌<>◌, true, false, Bool-cases, some, List, [], ◌∷◌, ◌++◌, includes, ◌==◌, string_eq,
  nat_eq, starts_with, strip_prefix, codes, ◌≡◌, ◌⊎◌, inl, inr, refl, eq_iff, arith, Option-cases,
}
use capybara_ai.Prelude.Effect.{Result, ok, throw, is_ok}
use capybara_ai.Tools.Scopes.{
  Os, real_root, is_contained, within, resolve_within, real_or_new, parent_joined,
}

strip_prefix-codes :
    (w s rest : String) → strip_prefix w s ≡ some rest → codes s ≡ codes w ++ codes rest
strip_prefix-codes String.[] s rest e = ground (arith)
strip_prefix-codes (String.◌∷◌ c w) String.[] rest e = absurd (cc)
strip_prefix-codes (String.◌∷◌ c w) (String.◌∷◌ d s) rest e =
    ground (arith, strip_prefix-codes w s rest)

starts_with-codes :
    (s w : String) → starts_with s w ≡ true → (rest : String) × (codes s ≡ codes w ++ codes rest)
starts_with-codes s w h = elim (Option-cases (strip_prefix w s)) [
  | inl e ↦ absurd (cc (rw e at h))
  | inr (rest, e) ↦ (rest, strip_prefix-codes w s rest e)
]

-- The root itself, or a path below it: the root, the separator, and a name.
abbrev pub IsUnder : Os → String → String → Type 0
IsUnder os path root =
    (path ≡ root) ⊎ ((rest : String) × (codes path ≡ codes (root <> os.sep) ++ codes rest))

-- A path is under one of the roots, whose links are resolved.
abbrev pub IsUnderSome : Os → String → List String → Type 0
IsUnderSome os path roots =
    (root : String) × (includes roots root ≡ true) × IsUnder os path (real_root os root)

-- The path is where the absolute form of `p` leads when every link is followed.
abbrev pub IsResolved : Os → String → String → Type 0
IsResolved os p path = os.realpath (os.resolve p) ≡ ok path

-- The same, or for a file that does not exist, its name in the directory that its parent leads to.
abbrev pub IsWritable : Os → String → String → Type 0
IsWritable os p path =
    IsResolved os p path
    ⊎ ((parent : String) × (is_ok (os.realpath (os.resolve p)) ≡ false)
        × (os.realpath (os.dirname (os.resolve p)) ≡ ok parent)
        × (path ≡ os.join parent (os.basename (os.resolve p))))

module _ (os : Os) where
  is_contained-IsUnderSome :
      (real : String) (roots : List String)
      → is_contained os real roots ≡ true
      → IsUnderSome os real roots
  is_contained-IsUnderSome real [] h = absurd (cc)
  is_contained-IsUnderSome real (root ∷ roots) h = elim (Bool-cases (real == real_root os root)) [
    | inl same ↦
        (root, rw ((eq_iff root root).1 refl) refl, inl ((eq_iff real (real_root os root)).0 same))
    | inr other ↦ elim (Bool-cases (starts_with real (real_root os root <> os.sep))) [
      | inl below ↦
          (root, rw ((eq_iff root root).1 refl) refl, inr (starts_with-codes real _ below))
      | inr outside ↦
          let (r, listed, under) = is_contained-IsUnderSome real roots (rw (other, outside) at h) in
          (r, ground (arith, listed), under)
    ]
  ]

  within-IsUnderSome :
      (roots : List String) (r : Result String String) (path : String)
      → within os roots r ≡ ok path
      → IsUnderSome os path roots
  within-IsUnderSome roots (throw e) path h = absurd (cc)
  within-IsUnderSome roots (ok real) path h = elim (Bool-cases (is_contained os real roots)) [
    | inl inside ↦
        let same : real ≡ path = cc (rw inside at h) in
        rw (← same) (is_contained-IsUnderSome real roots inside)
    | inr outside ↦ absurd (cc (rw outside at h))
  ]

  -- What passes the test of the roots is what was tested.
  within-same :
      (roots : List String) (r : Result String String) (path : String)
      → within os roots r ≡ ok path
      → r ≡ ok path
  within-same roots (throw e) path h = absurd (cc)
  within-same roots (ok real) path h = elim (Bool-cases (is_contained os real roots)) [
    | inl inside ↦ rw inside at h
    | inr outside ↦ absurd (cc (rw outside at h))
  ]

  real-IsResolved :
      (abs path : String) (r : Result String String)
      → real_or_new os abs false r ≡ ok path
      → r ≡ ok path
  real-IsResolved abs path (ok real) h = h
  real-IsResolved abs path (throw e) h = absurd (cc)

  parent-joined :
      (abs path : String) (r : Result String String)
      → parent_joined os abs r ≡ ok path
      → (parent : String) × (r ≡ ok parent) × (path ≡ os.join parent (os.basename abs))
  parent-joined abs path (throw e) h = absurd (cc)
  parent-joined abs path (ok parent) h = (parent, refl, cc)

  real-IsWritable :
      (abs path : String) (r : Result String String)
      → real_or_new os abs true r ≡ ok path
      → (r ≡ ok path)
        ⊎ ((parent : String) × (is_ok r ≡ false)
            × (os.realpath (os.dirname abs) ≡ ok parent)
            × (path ≡ os.join parent (os.basename abs)))
  real-IsWritable abs path (ok real) h = inl h
  real-IsWritable abs path (throw e) h =
      let (parent, found, joined) = parent-joined abs path _ h in inr (parent, refl, found, joined)

  -- The path that is used lies under a root, its links resolved.
  pub read-IsContained :
      (p : String) (roots : List String) (path : String)
      → resolve_within os p roots false ≡ ok path
      → IsResolved os p path × IsUnderSome os path roots
  unfolding resolve_within
  read-IsContained p [] path h = absurd (cc)
  read-IsContained p (root ∷ roots) path h =
      let r = real_or_new os (os.resolve p) false (os.realpath (os.resolve p)) in
      (
        real-IsResolved (os.resolve p) path _ (within-same (root ∷ roots) r path h),
        within-IsUnderSome (root ∷ roots) r path h,
      )

  pub write-IsContained :
      (p : String) (roots : List String) (path : String)
      → resolve_within os p roots true ≡ ok path
      → IsWritable os p path × IsUnderSome os path roots
  unfolding resolve_within
  write-IsContained p [] path h = absurd (cc)
  write-IsContained p (root ∷ roots) path h =
      let r = real_or_new os (os.resolve p) true (os.realpath (os.resolve p)) in
      (
        real-IsWritable (os.resolve p) path _ (within-same (root ∷ roots) r path h),
        within-IsUnderSome (root ∷ roots) r path h,
      )
