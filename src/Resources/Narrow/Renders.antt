-- ===== src/Resources/Narrow/Renders.antt =====
-- Which names the checks of narrowing let through.
use zscalerctl.Prelude.{
  list_beq, Bool, true, false, ◌&&◌, ◌≡◌, refl, sym, ap, subst, ◌∙◌, inl, inr, ◌⊎◌, ◌↔◌, List, [],
  ◌∷◌, codes, text_beq, text_beq_iff, text_eq, contains, All, Some, arith, Bool-cases,
}
use zscalerctl.Resources.Spec.{
  Mode, mode_standard, mode_share, mode_paranoid, effective_mode, is_secret, FieldInfo, FieldSpec,
  any_mode, allowed_in,
}
use zscalerctl.Resources.Encodable.{both, and_true}
use zscalerctl.Resources.Availability.{
  any_secret, all_allowed, renderable_modes, all_modes, availability_along, rendered_in,
}

-- The modes that the program has, and the empty one.
abbrev is_mode : Mode → Bool
is_mode mode = contains all_modes (effective_mode mode)

allowed_in-effective :
    (f : FieldInfo) (mode : Mode) → allowed_in f (effective_mode mode) ≡ allowed_in f mode
unfolding allowed_in
allowed_in-effective f [] = refl
allowed_in-effective f (c ∷ s) = refl

all_allowed-effective :
    (mode : Mode) (chain : List FieldSpec)
    → all_allowed (effective_mode mode) chain ≡ all_allowed mode chain
unfolding all_allowed
all_allowed-effective mode [] = refl
all_allowed-effective mode (f ∷ chain) =
    ground (arith, allowed_in-effective f.info mode, all_allowed-effective mode chain)

contains-renderable_modes :
    (chain : List FieldSpec) (modes : List Mode) (mode : Mode)
    → contains (renderable_modes chain modes) mode ≡ (contains modes mode && all_allowed mode chain)
unfolding contains renderable_modes
contains-renderable_modes chain [] mode = refl
contains-renderable_modes chain (m ∷ modes) mode =
    let same : text_beq m mode ≡ true → all_allowed m chain ≡ all_allowed mode chain =
      λ e. ap (λ x. all_allowed x chain) ((text_beq_iff m mode).0 e) in
    ground (arith, same, contains-renderable_modes chain modes mode)

contains-rendered_in :
    (chain : List FieldSpec) (mode : Mode)
    → rendered_in (availability_along chain) mode ≡ (is_mode mode && all_allowed mode chain)
unfolding rendered_in availability_along
contains-rendered_in chain mode =
    contains-renderable_modes chain all_modes (effective_mode mode)
    ∙ ap (λ b. is_mode mode && b) (all_allowed-effective mode chain)

-- A mode of the program, or none, which means the standard one.
abbrev pub IsMode : Mode → Type 0
IsMode mode =
    (mode ≡ []) ⊎ (mode ≡ codes "standard") ⊎ (mode ≡ codes "share") ⊎ (mode ≡ codes "paranoid")

-- Two names of modes mean the same mode.
abbrev pub Means : Mode → Mode → Type 0
Means m n = effective_mode m ≡ effective_mode n

-- The field is not secret, and one of its modes means this one.
abbrev pub IsAllowed : Mode → FieldSpec → Type 0
IsAllowed mode f =
    (is_secret f.info.classification ≡ false)
    × Some (λ allowed. Means allowed mode) f.info.allowed_modes

is_mode-IsMode : (mode : Mode) → (is_mode mode ≡ true) ↔ IsMode mode
unfolding contains list_beq
is_mode-IsMode [] = (λ h. inl refl, λ h. refl)
is_mode-IsMode (c ∷ s) = (
  λ h. inr (one_of h),
  λ h. elim h [
    | inl e ↦ cc
    | inr (inl e) ↦ subst (λ m. contains all_modes m ≡ true) (sym e) refl
    | inr (inr (inl e)) ↦ subst (λ m. contains all_modes m ≡ true) (sym e) refl
    | inr (inr (inr e)) ↦ subst (λ m. contains all_modes m ≡ true) (sym e) refl
  ],
)
  where
    one_of :
        contains all_modes (c ∷ s) ≡ true
        → (c ∷ s ≡ codes "standard") ⊎ (c ∷ s ≡ codes "share") ⊎ (c ∷ s ≡ codes "paranoid")
    one_of h = elim (Bool-cases (text_beq mode_standard (c ∷ s))) [
      | inl e ↦ inl (sym ((text_beq_iff mode_standard (c ∷ s)).0 e))
      | inr e ↦ elim (Bool-cases (text_beq mode_share (c ∷ s))) [
        | inl f ↦ inr (inl (sym ((text_beq_iff mode_share (c ∷ s)).0 f)))
        | inr f ↦ elim (Bool-cases (text_beq mode_paranoid (c ∷ s))) [
          | inl g ↦ inr (inr (sym ((text_beq_iff mode_paranoid (c ∷ s)).0 g)))
          | inr g ↦ let none_of = rw (e, f, g) at h in cc
        ]
      ]
    ]

any_mode-Some :
    (modes : List Mode) (mode : Mode)
    → (any_mode modes (effective_mode mode) ≡ true) ↔ Some (λ allowed. Means allowed mode) modes
unfolding any_mode
any_mode-Some [] mode = (λ h. cc, λ h. elim h [ ])
any_mode-Some (m ∷ modes) mode =
    elim (Bool-cases (text_beq (effective_mode m) (effective_mode mode))) [
      | inl e ↦ rw e (λ h. inl ((text_beq_iff _ _).0 e), λ h. refl)
      | inr e ↦ rw e (
        λ h. inr ((any_mode-Some modes mode).0 h),
        λ h. elim h [
          | inl same ↦
              let yes = (text_beq_iff (effective_mode m) (effective_mode mode)).1 same in cc
          | inr later ↦ (any_mode-Some modes mode).1 later
        ],
      )
    ]

allowed_in-IsAllowed :
    (f : FieldSpec) (mode : Mode) → (allowed_in f.info mode ≡ true) ↔ IsAllowed mode f
unfolding allowed_in
allowed_in-IsAllowed f mode = elim (Bool-cases (is_secret f.info.classification)) [
  | inl e ↦ rw e (λ h. cc, λ (h, k). cc)
  | inr e ↦ rw e (
    λ h. (refl, (any_mode-Some f.info.allowed_modes mode).0 h),
    λ (h, k). (any_mode-Some f.info.allowed_modes mode).1 k,
  )
]

all_allowed-All :
    (mode : Mode) (chain : List FieldSpec)
    → (all_allowed mode chain ≡ true) ↔ All (IsAllowed mode) chain
unfolding all_allowed
all_allowed-All mode [] = (λ h. tt, λ h. refl)
all_allowed-All mode (f ∷ chain) = elim (Bool-cases (allowed_in f.info mode)) [
  | inl e ↦ rw e (
    λ h. ((allowed_in-IsAllowed f mode).0 e, (all_allowed-All mode chain).0 h),
    λ (h, k). (all_allowed-All mode chain).1 k,
  )
  | inr e ↦ rw e (λ h. cc, λ (h, k). let yes = (allowed_in-IsAllowed f mode).1 h in cc)
]

-- The availability of a path says that it renders in a mode exactly if the mode is standard, share,
-- paranoid or empty, and each field along the path is not secret and has among its modes one that
-- means it, where the empty mode means the standard one.
pub rendered_in-availability_along :
    (chain : List FieldSpec) (mode : Mode)
    → (rendered_in (availability_along chain) mode ≡ true)
      ↔ (IsMode mode × All (IsAllowed mode) chain)
rendered_in-availability_along chain mode =
    let same = contains-rendered_in chain mode in
    (
      λ h.
          let (known, allowed) = both (is_mode mode) (all_allowed mode chain) (sym same ∙ h) in
          ((is_mode-IsMode mode).0 known, (all_allowed-All mode chain).0 allowed),
      λ (known, allowed).
          same
          ∙ and_true (is_mode mode) (all_allowed mode chain) ((is_mode-IsMode mode).1 known)
              ((all_allowed-All mode chain).1 allowed),
    )

all_allowed-secret :
    (chain : List FieldSpec) (mode : Mode)
    → any_secret chain ≡ true
    → all_allowed mode chain ≡ false
unfolding any_secret all_allowed allowed_in
all_allowed-secret [] mode h = cc
all_allowed-secret (f ∷ chain) mode h = ground (arith, all_allowed-secret chain mode)

-- A path that goes through a secret field renders in no mode.
pub rendered_in-secret :
    (chain : List FieldSpec) (mode : Mode)
    → (availability_along chain).secret ≡ true
    → rendered_in (availability_along chain) mode ≡ false
unfolding availability_along
rendered_in-secret chain mode h =
    contains-rendered_in chain mode ∙ ground (arith, all_allowed-secret chain mode h)
