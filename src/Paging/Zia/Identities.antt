-- ===== src/Paging/Zia/Identities.antt =====
-- The identities of the records that a walk has read.
use zscalerctl.Prelude.{
  inl, inr, ◌+◌, ◌≤◌, ◌≡◌, subst, Option, none, some, List, [], ◌∷◌, ◌++◌, false, Text, contains,
  text_eq, append_assoc, append-nil, sym, arith, Option-cases, Bool-cases,
}
use zscalerctl.Paging.Canonical.{RecordEncoding, pagination_record_identity}
use zscalerctl.Paging.Zia.{Scan, note_identity, scan_identities}

-- `ids` are the identities of the records of `all`, the last first.
pub data Identities {T : Type 0} (enc : RecordEncoding T) : List T → List Text → Type 0 where
  nil : Identities enc [] []
  bare :
      {all : List T} {ids : List Text} (r : T)
      → pagination_record_identity enc r ≡ some none
      → Identities enc all ids
      → Identities enc (all ++ r ∷ []) ids
  named :
      {all : List T} {ids : List Text} (r : T) (i : Text)
      → pagination_record_identity enc r ≡ some (some i)
      → Identities enc all ids
      → Identities enc (all ++ r ∷ []) (i ∷ ids)

-- No identity occurs twice.
abbrev pub IsUnique : List Text → Type 0
IsUnique [] = Unit
IsUnique (i ∷ ids) = (contains ids i ≡ false) × IsUnique ids

module _ {T : Type 0} (enc : RecordEncoding T) where
  abbrev pub Scanned : List T → Scan → Option Scan → Type 0
  Scanned items s none = Unit
  Scanned items s (some t) =
      (s.repeated ≤ t.repeated)
      × (t.repeated ≡ 0
          → IsUnique s.identities
          → IsUnique t.identities
            × ((all : List T)
                → Identities enc all s.identities
                → Identities enc (all ++ items) t.identities))

  shift :
      (item : T) (items all : List T) (ids : List Text)
      → Identities enc ((all ++ item ∷ []) ++ items) ids
      → Identities enc (all ++ item ∷ items) ids
  shift item items all ids = subst (λ l. Identities enc l ids) (append_assoc all (item ∷ []) items)

  -- One more record before those that `r` has scanned.
  scan_step :
      (item : T) (items : List T) (s : Scan) (o : Option Text) (r : Option Scan)
      → pagination_record_identity enc item ≡ some o
      → Scanned items (note_identity o s) r
      → Scanned (item ∷ items) s r
  scan_step item items s o none e h = tt
  scan_step item items s none (some t) e h = (
    h.0,
    λ z u.
        let (u', ids) = h.1 z u in
        (
          u',
          λ all given.
              shift item items all t.identities (ids (all ++ item ∷ []) (bare item e given)),
        ),
  )
  scan_step item items s (some i) (some t) e h = elim (Bool-cases (contains s.identities i)) [
    | inl old ↦
        let le : s.repeated + 1 ≤ t.repeated = (rw old at h).0 in
        (omega arith, λ z u. absurd (omega arith))
    | inr new ↦
        let (le, rest) = rw new at h in
        (
          le,
          λ z u.
              let (u', ids) = rest z (new, u) in
              (
                u',
                λ all given.
                    shift item items all t.identities
                      (ids (all ++ item ∷ []) (named item i e given)),
              ),
        )
  ]

  -- A scan that meets no repeated identity has added those of its records.
  pub scan_identities-Scanned :
      (items : List T) (s : Scan) → Scanned items s (scan_identities enc items s)
  unfolding scan_identities
  scan_identities-Scanned [] s = (
    omega arith,
    λ z u. (u, λ all h. subst (λ l. Identities enc l s.identities) (sym (append-nil all)) h),
  )
  scan_identities-Scanned (item ∷ items) s =
      elim (Option-cases (pagination_record_identity enc item)) [
        | inl failed ↦ rw failed tt
        | inr (o, e) ↦ rw e (
            scan_step item items s o (scan_identities enc items (note_identity o s)) e
              (scan_identities-Scanned items (note_identity o s)))
      ]
