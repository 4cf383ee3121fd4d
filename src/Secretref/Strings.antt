-- ===== src/Secretref/Strings.antt =====
-- The strings that name a secret.
use zscalerctl.Prelude.{
  false, ◌≡◌, refl, sym, subst, ◌↔◌, inl, inr, Option, none, some, ◌++◌, Text, codes, text_beq,
  text_beq_iff, is_empty, cut, cut-append, cut-some, has_byte, list_beq, contains_text, trim_space,
  ok, Bool-cases,
}
use zscalerctl.Secretref.{
  SecretRef, env_ref, file_ref, keyring_ref, cut_keyring, with_scheme, parse_string,
}

-- The string names the reference.
pub data Spells : Text → SecretRef → Type 0 where
  env : (name : Text) → is_empty name ≡ false → Spells (codes "env:" ++ name) (env_ref name)
  file : (path : Text) → is_empty path ≡ false → Spells (codes "file:" ++ path) (file_ref path)
  keyring :
      (service key : Text)
      → is_empty service ≡ false
      → is_empty key ≡ false
      → has_byte b'/' service ≡ false
      → contains_text key (codes "/") ≡ false
      → Spells (codes "keyring:" ++ (service ++ (codes "/" ++ key))) (keyring_ref service key)

parse_cut :
    (raw s : Text) (r : SecretRef)
    → trim_space raw ≡ s
    → with_scheme (cut b':' s) ≡ ok r
    → parse_string raw ≡ ok r
unfolding parse_string
parse_cut raw s r e h = rw e h

Spells-parse :
    (raw s : Text) (r : SecretRef) → trim_space raw ≡ s → Spells s r → parse_string raw ≡ ok r
unfolding has_byte list_beq
Spells-parse raw _ _ e (env name some_name) =
    parse_cut raw _ _ e (rw (cut-append b':' (codes "env") name refl, some_name) refl)
Spells-parse raw _ _ e (file path some_path) =
    parse_cut raw _ _ e (rw (cut-append b':' (codes "file") path refl, some_path) refl)
Spells-parse raw _ _ e (keyring service key some_service some_key one_cut no_more) =
    let value = service ++ (codes "/" ++ key) in
    let first = cut-append b':' (codes "keyring") value refl in
    parse_cut raw _ _ e
      (rw (first, cut-append b'/' service key one_cut, some_service, some_key, no_more) refl)

cut_keyring-Spells :
    (value : Text) (r : SecretRef)
    → cut_keyring (cut b'/' value) ≡ ok r
    → Spells (codes "keyring:" ++ value) r
cut_keyring-Spells value r h = from_cut (cut b'/' value) refl h
  where
    from_cut :
        (o : Option (Text × Text))
        → cut b'/' value ≡ o
        → cut_keyring o ≡ ok r
        → Spells (codes "keyring:" ++ value) r
    from_cut none e h = cc
    from_cut (some (service, key)) e h =
        let (whole, one_cut) = cut-some b'/' value service key e in
        elim (Bool-cases (is_empty service)) [
          | inl x ↦ let bad = rw x at h in cc
          | inr some_service ↦ elim (Bool-cases (is_empty key)) [
            | inl x ↦ let bad = rw (some_service, x) at h in cc
            | inr some_key ↦ elim (Bool-cases (contains_text key (codes "/"))) [
              | inl x ↦ let bad = rw (some_service, some_key, x) at h in cc
              | inr no_more ↦
                  let same : keyring_ref service key ≡ r =
                    let got = rw (some_service, some_key, no_more) at h in cc in
                  subst (λ v. Spells (codes "keyring:" ++ v) r) (sym whole)
                    (subst (Spells (codes "keyring:" ++ (service ++ (codes "/" ++ key)))) same
                      (keyring service key some_service some_key one_cut no_more))
            ]
          ]
        ]

-- A scheme and a value, by the three schemes.
with_scheme-Spells :
    (scheme value : Text) (r : SecretRef)
    → with_scheme (some (scheme, value)) ≡ ok r
    → Spells (scheme ++ (codes ":" ++ value)) r
with_scheme-Spells scheme value r h = elim (Bool-cases (is_empty scheme)) [
  | inl x ↦ let bad = rw x at h in cc
  | inr some_scheme ↦
      let h1 = rw some_scheme at h in
      elim (Bool-cases (text_beq scheme (codes "env"))) [
        | inl x ↦
            let named = rw x at h1 in
            elim (Bool-cases (is_empty value)) [
              | inl y ↦ let bad = rw y at named in cc
              | inr y ↦
                  let same : env_ref value ≡ r = let got = rw y at named in cc in
                  subst (λ s. Spells (s ++ (codes ":" ++ value)) r)
                    (sym ((text_beq_iff scheme (codes "env")).0 x))
                    (subst (Spells (codes "env:" ++ value)) same (env value y))
            ]
        | inr x ↦
            let h2 = rw x at h1 in
            elim (Bool-cases (text_beq scheme (codes "file"))) [
              | inl x ↦
                  let named = rw x at h2 in
                  elim (Bool-cases (is_empty value)) [
                    | inl y ↦ let bad = rw y at named in cc
                    | inr y ↦
                        let same : file_ref value ≡ r = let got = rw y at named in cc in
                        subst (λ s. Spells (s ++ (codes ":" ++ value)) r)
                          (sym ((text_beq_iff scheme (codes "file")).0 x))
                          (subst (Spells (codes "file:" ++ value)) same (file value y))
                  ]
              | inr x ↦
                  let h3 = rw x at h2 in
                  elim (Bool-cases (text_beq scheme (codes "keyring"))) [
                    | inl x ↦
                        subst (λ s. Spells (s ++ (codes ":" ++ value)) r)
                          (sym ((text_beq_iff scheme (codes "keyring")).0 x))
                          (cut_keyring-Spells value r (rw x at h3))
                    | inr x ↦ let bad = rw x at h3 in cc
                  ]
            ]
      ]
]

parse-Spells : (raw : Text) (r : SecretRef) → parse_string raw ≡ ok r → Spells (trim_space raw) r
unfolding parse_string
parse-Spells raw r h = from_cut (cut b':' (trim_space raw)) refl h
  where
    from_cut :
        (o : Option (Text × Text))
        → cut b':' (trim_space raw) ≡ o
        → with_scheme o ≡ ok r
        → Spells (trim_space raw) r
    from_cut none e h = cc
    from_cut (some (scheme, value)) e h =
        subst (λ s. Spells s r) (sym ((cut-some b':' (trim_space raw) scheme value e).0))
          (with_scheme-Spells scheme value r h)

-- A string parses to a reference exactly if, without the white space around it, it is `env:` with a
-- name, `file:` with a path, or `keyring:` with a service and a key, nothing empty and with one `/`
-- in the last; the reference holds these parts and no others.
pub parse_string-Spells :
    (raw : Text) (r : SecretRef) → (parse_string raw ≡ ok r) ↔ Spells (trim_space raw) r
parse_string-Spells raw r = (parse-Spells raw r, Spells-parse raw (trim_space raw) r refl)
