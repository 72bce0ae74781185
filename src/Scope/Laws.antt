-- ===== src/Scope/Laws.antt =====
-- What a scope covers, and that nothing resolves out of it.
use origofs.Base.{
  ◌≡◌, ◌↔◌, ◌⊎◌, inl, inr, refl, sym, ap, ◌∙◌, Bool, true, false, not, ◌||◌, Option, none, some,
  List, [], ◌∷◌, ◌++◌, Text, text_eq, text_eq_iff, ◌==◌, if◌then◌else◌, ok, err, guard, >>=-eq-ok,
  Bool-cases, Option-cases, arith, In, In-retain, In-retain_of,
}
use origofs.Errors.{invalid_argument, invalid_path}
use origofs.Paths.{
  slash, is_empty, starts_with_slash, has_byte, strip_prefix, has_dotdot, trim_slashes, trim,
}
use origofs.Paths.Laws.{strip_prefix-append, strip_prefix-some, Cut}
use origofs.Paths.Split.{has_dotdot-append}
use origofs.Scope.{
  Scope, traversal, at, is_whole, continues, contains, absolute, placed, resolve, filter,
}

-- The root is the whole workspace's, or the path itself, or a directory that the path continues
-- behind a slash.
abbrev pub Covers : Text → Text → Type 0
Covers root path = (root ≡ []) ⊎ ((root ≡ path) ⊎ Cut root path)

continues-Cut : (root path : Text) → continues root path ≡ true → Cut root path
unfolding continues
continues-Cut root path h = elim (Option-cases (strip_prefix root path)) [
  | inl e ↦ absurd (ground (arith, e, h))
  | inr ([], e) ↦ absurd (ground (arith, e, h))
  | inr (c ∷ r, e) ↦
      let q : c ≡ slash = ground (arith, e, h) in
      (r, strip_prefix-some root path (c ∷ r) e ∙ ap (λ z. root ++ (z ∷ r)) q)
]

Cut-continues : (root path : Text) → Cut root path → continues root path ≡ true
unfolding continues
Cut-continues root path (r, e) =
    let q : strip_prefix root path ≡ some (slash ∷ r) =
      ap (strip_prefix root) e ∙ strip_prefix-append root (slash ∷ r) in
    rw (q, continues) refl

contains-rooted :
    (root path : Text) → (contains (record { root = root }) (some path) ≡ true) ↔ Covers root path
unfolding contains is_whole
contains-rooted [] path = (λ _. inl refl, λ _. refl)
contains-rooted (c ∷ cs) path = (
  λ h. elim (Bool-cases (text_eq path (c ∷ cs))) [
    | inl e ↦ inr (inl (sym ((text_eq_iff path (c ∷ cs)).0 e)))
    | inr e ↦
        let k : continues (c ∷ cs) path ≡ true = ground (arith, e, h) in
        inr (inr (continues-Cut (c ∷ cs) path k))
  ],
  λ h. elim h [
    | inl e ↦ cc
    | inr (inl e) ↦ ground (arith, text_eq_iff path (c ∷ cs), e)
    | inr (inr k) ↦ ground (arith, Cut-continues (c ∷ cs) path k)
  ],
)

-- A scope contains a path exactly when its root is empty, is the path, or is followed in the path by
-- a slash.
pub contains_iff : (s : Scope) (path : Text) → (contains s (some path) ≡ true) ↔ Covers s.root path
contains_iff s path = contains-rooted s.root path

-- A scope that is built has no `..` component in its root.
at-no_dotdot : (root : Text) (s : Scope) → at root ≡ ok s → has_dotdot s.root ≡ false
unfolding at
at-no_dotdot root s h =
    let trimmed = trim root in
    let normalized = trim_slashes trimmed in
    let (_, _, e1) =
      >>=-eq-ok (guard (starts_with_slash trimmed || is_empty trimmed) invalid_argument) _ h in
    let (_, g, e2) = >>=-eq-ok (guard (not (has_dotdot normalized)) invalid_path) _ e1 in
    let (_, _, e3) = >>=-eq-ok (guard (not (has_byte 0 normalized)) invalid_path) _ e2 in
    let q : s.root ≡ normalized = cc in
    elim (Bool-cases (has_dotdot normalized)) [
      | inl e ↦ absurd (ground (arith, e, g))
      | inr e ↦ rw q e
    ]

absolute-slash : (path : Text) → (r : Text) × (absolute path ≡ slash ∷ r)
unfolding absolute
absolute-slash [] = ([], refl)
absolute-slash (c ∷ cs) = elim (Bool-cases (c == slash)) [
  | inl e ↦ let q : c ≡ slash = ground (arith, e) in (cs, rw q refl)
  | inr e ↦ (c ∷ cs, rw e refl)
]

Covers-placed : (root r : Text) → Covers root (placed (record { root = root }) (slash ∷ r))
unfolding placed is_whole
Covers-placed [] r = inl refl
Covers-placed (c ∷ cs) r = elim (Bool-cases (text_eq (slash ∷ r) (slash ∷ []))) [
  | inl e ↦ inr (inl (ground (arith, e)))
  | inr e ↦ inr (inr (r, ground (arith, e)))
]

has_dotdot-placed :
    (root r : Text)
    → has_dotdot root ≡ false
    → has_dotdot (slash ∷ r) ≡ false
    → has_dotdot (placed (record { root = root }) (slash ∷ r)) ≡ false
unfolding placed is_whole
has_dotdot-placed [] r h k = k
has_dotdot-placed (c ∷ cs) r h k = elim (Bool-cases (text_eq (slash ∷ r) (slash ∷ []))) [
  | inl e ↦ ground (arith, e)
  | inr e ↦ let d = has_dotdot-append [] r in ground (arith, e, has_dotdot-append (c ∷ cs) r, d)
]

-- In a scope that was built, whatever a request resolves to lies inside the scope and has no `..`
-- component.
pub resolve_inside :
    (root path p : Text) (s : Scope)
    → at root ≡ ok s
    → resolve s path ≡ ok p
    → (contains s (some p) ≡ true) × (has_dotdot p ≡ false)
unfolding resolve
resolve_inside root path p s built h =
    let (r, a) = absolute-slash path in
    let (_, g, e) = >>=-eq-ok (guard (not (has_dotdot (absolute path))) traversal) _ h in
    let f : has_dotdot (absolute path) ≡ false = ground (arith, g) in
    let q0 : placed s (absolute path) ≡ p = cc in
    let q : placed s (slash ∷ r) ≡ p = rw a at q0 in
    (
      rw (← q) ((contains_iff s (placed s (slash ∷ r))).1 (Covers-placed s.root r)),
      rw (← q) (has_dotdot-placed s.root r (at-no_dotdot root s built) (rw a at f)),
    )

-- A request is refused exactly when its path has a `..` component, in every scope alike.
pub resolve_refused :
    (s : Scope) (path : Text)
    → (resolve s path ≡ err traversal) ↔ (has_dotdot (absolute path) ≡ true)
unfolding resolve
resolve_refused s path = (λ h. ground arith, λ h. ground arith)

contains-whole : (s : Scope) (key : Option Text) → is_whole s ≡ true → contains s key ≡ true
unfolding contains
contains-whole s none h = h
contains-whole s (some path) h = rw h refl

-- What a filter keeps of a listing is what the scope contains.
filter_iff :
    {T : Type 0} (s : Scope) (items : List T) (key : T → Option Text) (x : T)
    → In x (filter s items key) ↔ (In x items × (contains s (key x) ≡ true))
unfolding filter
filter_iff {T = T} s items key x =
    let p : T → Bool = λ i. contains s (key i) in
    elim (Bool-cases (is_whole s)) [
      | inl w ↦ rw (w, if◌then◌else◌) (λ i. (i, contains-whole s (key x) w), λ h. h.0)
      | inr w ↦
          rw (w, if◌then◌else◌) (λ i. In-retain p x items i, λ h. In-retain_of p x items h.0 h.1)
    ]
