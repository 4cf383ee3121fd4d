-- ===== src/Fileperm/Unc.antt =====
-- A network path has no local volume.
use zscalerctl.Prelude.{
  ℕ, Bool, true, false, ◌≡◌, refl, sym, ◌∙◌, inl, inr, [], ◌∷◌, ◌++◌, Text, codes, is_empty, length,
  drop, has_prefix, list_beq, to_lower, lower_byte, ◌==◌, if◌then◌else◌, ◌&&◌, ◌||◌, arith,
  Bool-cases, All,
}
use zscalerctl.Fileperm.{
  with_backslashes, has_prefix_fold, is_unc_path, volume_guid, or_nothing, drive_root,
  volume_root_from_final_path,
}

-- `has_prefix_fold`, byte by byte.
starts : Text → Text → Bool
starts s [] = true
starts [] (b ∷ prefix) = false
starts (c ∷ s) (b ∷ prefix) = (lower_byte c == lower_byte b) && starts s prefix

fold-starts : (s prefix : Text) → has_prefix_fold s prefix ≡ starts s prefix
unfolding has_prefix_fold starts to_lower list_beq
fold-starts [] [] = refl
fold-starts (c ∷ s) [] = ground arith
fold-starts [] (b ∷ prefix) = ground arith
fold-starts (c ∷ s) (b ∷ prefix) = ground (arith, fold-starts s prefix)

starts-append :
    (s first later : Text)
    → starts s (first ++ later) ≡ (starts s first && starts (drop (length first) s) later)
unfolding starts
starts-append s [] later = refl
starts-append [] (b ∷ first) later = refl
starts-append (c ∷ s) (b ∷ first) later = ground (arith, starts-append s first later)

-- A byte that no other byte is equal to regardless of case.
abbrev Caseless : ℕ → Type 0
Caseless b = (c : ℕ) → (lower_byte c == lower_byte b) ≡ (c == b)

prefix-starts : (s prefix : Text) → All Caseless prefix → has_prefix s prefix ≡ starts s prefix
unfolding has_prefix starts
prefix-starts s [] h = refl
prefix-starts [] (b ∷ prefix) h = refl
prefix-starts (c ∷ s) (b ∷ prefix) (here, later) = rw (here c, prefix-starts s prefix later) refl

backslash-Caseless : Caseless b'\\'
backslash-Caseless c = ground arith

question-Caseless : Caseless b'?'
question-Caseless c = ground arith

dot-Caseless : Caseless b'.'
dot-Caseless c = ground arith

abbrev long : Text
long = codes "\\\\?\\"

abbrev device : Text
device = codes "\\\\.\\"

Caseless-long : All Caseless long
Caseless-long =
    (backslash-Caseless, (backslash-Caseless, (question-Caseless, (backslash-Caseless, tt))))

Caseless-device : All Caseless device
Caseless-device =
    (backslash-Caseless, (backslash-Caseless, (dot-Caseless, (backslash-Caseless, tt))))

-- The test of a prefix, by those of its front and of the rest.
folded :
    (q front rest : Text)
    → All Caseless front
    → has_prefix_fold q (front ++ rest)
      ≡ (has_prefix q front && has_prefix_fold (drop (length front) q) rest)
folded q front rest caseless =
    let first = prefix-starts q front caseless in
    let second = fold-starts (drop (length front) q) rest in
    fold-starts q (front ++ rest) ∙ (starts-append q front rest ∙ rw (first, second) refl)

unc_volume :
    (r : Text)
    → has_prefix_fold r (codes "UNC\\") ≡ true
    → has_prefix_fold r (codes "Volume{") ≡ false
unfolding starts
unc_volume r h =
    let u : starts r (codes "UNC\\") ≡ true = sym (fold-starts r (codes "UNC\\")) ∙ h in
    fold-starts r (codes "Volume{") ∙ differ r u
  where
    differ : (r : Text) → starts r (codes "UNC\\") ≡ true → starts r (codes "Volume{") ≡ false
    differ [] u = cc
    differ (c ∷ r) u =
        let first : (lower_byte c == 117) ≡ true = and_first (lower_byte c == 117) _ u in
        let other : (lower_byte c == 118) ≡ false = differ_bytes (lower_byte c) first in
        rw other refl
      where
        and_first : (a b : Bool) → (a && b) ≡ true → a ≡ true
        and_first a b h = ground arith

        differ_bytes : (n : ℕ) → (n == 117) ≡ true → (n == 118) ≡ false
        differ_bytes n h = ground arith

two_backslashes : (q : Text) → has_prefix q (codes "\\\\") ≡ true → drive_root q ≡ []
unfolding has_prefix
two_backslashes [] h = refl
two_backslashes (c ∷ []) h = refl
two_backslashes (c ∷ d ∷ q) h = let same : c ≡ 92 = ground arith in rw same refl

-- The network path in the forms of both functions, by the four tests that they share.
abbrev unc_by : Bool → Bool → Bool → Bool → Bool
unc_by long device unc plain =
    if (long && unc) || (device && unc) then true else if long || device then false else plain

abbrev root_by : Bool → Bool → Bool → Bool → Text → Text → Text → Text
root_by long device unc volume by_guid below plain =
    if (long && volume) || (device && volume)
    then by_guid
    else if long || device
    then if unc then [] else below
    else plain

root_by-nil :
    (a b unc volume plain : Bool) (by_guid below drive : Text)
    → (unc ≡ true → volume ≡ false)
    → (plain ≡ true → drive ≡ [])
    → unc_by a b unc plain ≡ true
    → root_by a b unc volume by_guid below drive ≡ []
root_by-nil true true true volume plain by_guid below drive apart no_drive h = rw (apart refl) refl
root_by-nil true true false volume plain by_guid below drive apart no_drive h = cc
root_by-nil true false true volume plain by_guid below drive apart no_drive h = rw (apart refl) refl
root_by-nil true false false volume plain by_guid below drive apart no_drive h = cc
root_by-nil false true true volume plain by_guid below drive apart no_drive h = rw (apart refl) refl
root_by-nil false true false volume plain by_guid below drive apart no_drive h = cc
root_by-nil false false unc volume plain by_guid below drive apart no_drive h = no_drive h

-- No volume root is found for a path that is a network path.
pub volume_root_from_final_path-nil :
    (p : Text) → is_unc_path p ≡ true → volume_root_from_final_path p ≡ []
unfolding is_unc_path volume_root_from_final_path
volume_root_from_final_path-nil p h =
    let q = with_backslashes p in
    let r = drop 4 q in
    let long_unc = folded q long (codes "UNC\\") Caseless-long in
    let device_unc = folded q device (codes "UNC\\") Caseless-device in
    let long_volume = folded q long (codes "Volume{") Caseless-long in
    let device_volume = folded q device (codes "Volume{") Caseless-device in
    elim (Bool-cases (is_empty p)) [
      | inl e ↦ rw e refl
      | inr e ↦
          rw (e, long_volume, device_volume)
            (root_by-nil (has_prefix q long) (has_prefix q device)
              (has_prefix_fold r (codes "UNC\\")) (has_prefix_fold r (codes "Volume{"))
              (has_prefix q (codes "\\\\")) (or_nothing (volume_guid q)) (drive_root r)
              (drive_root q) (unc_volume r) (two_backslashes q) (rw (e, long_unc, device_unc) at h))
    ]
