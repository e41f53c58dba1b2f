-- ===== src/Smee/Entries.antt =====
-- What the entries of an event of internal/smee/client.go say: its body and its headers.
use autoscaler.Common.{
  Bool-cases, List, [], arith, inl, inr, refl, subst, sym, ◌↔◌, ◌∙◌, ◌∷◌, ◌≡◌, ◌≢◌, ◌⊎◌,
}
use autoscaler.Smee.{extract_body, header_from, is_envelope, raw_value}
use autoscaler.Smee.AnyOrder.{header_from-cons, set_by}
use autoscaler.Text.{Bytes, bytes_eq, codes}
use autoscaler.Text.Equality.{bytes_eq_iff}
use autoscaler.World.{Fallible, Fallible-cases, err, ok}

module _ (json_string : Bytes → Fallible Bytes) (canonical : Bytes → Bytes) where
  -- The entry of that name holds v.
  abbrev pub Under : Bytes → List (Bytes × Bytes) → Bytes → Type 0
  Under key [] v = ⊥
  Under key ((k, w) ∷ more) v = ((k ≡ key) × (w ≡ v)) ⊎ ((k ≢ key) × Under key more v)

  -- The body is the entry named body, which is not empty: the JSON string that it is, or else its
  -- text as it stands.
  abbrev pub BodyIs : List (Bytes × Bytes) → Bytes → Type 0
  BodyIs raw body =
      (v : Bytes) × Under (codes "body") raw v
      × (v ≢ [])
      × ((json_string v ≡ ok body) ⊎ (((x : Bytes) × (json_string v ≡ err x)) × (body ≡ v)))

  -- An entry sets a header, if it is none of the relay's own and a JSON string.
  abbrev pub Sets : Bytes × Bytes → Bytes → Bytes → Type 0
  Sets (k, v) name s =
      (k ≢ codes "body")
      × (k ≢ codes "query")
      × (k ≢ codes "timestamp")
      × (json_string v ≡ ok s)
      × (canonical k ≡ canonical name)

  -- The last entry that sets the header sets it to s.
  abbrev pub LastSet : List (Bytes × Bytes) → Bytes → Bytes → Type 0
  LastSet [] name s = ⊥
  LastSet (a ∷ more) name s =
      LastSet more name s ⊎ (Sets a name s × ((s' : Bytes) → ¬ LastSet more name s'))

  -- A header that nobody sets is empty.
  abbrev pub HeaderIs : List (Bytes × Bytes) → Bytes → Bytes → Type 0
  HeaderIs raw name s = LastSet raw name s ⊎ ((s ≡ []) × ((s' : Bytes) → ¬ LastSet raw name s'))

  Under-raw_value :
      (key : Bytes) (raw : List (Bytes × Bytes)) (v : Bytes)
      → Under key raw v
      → raw_value raw key ≡ v
  unfolding raw_value
  Under-raw_value key [] v h = elim h [ ]
  Under-raw_value key ((k, w) ∷ more) v (inl (same, value)) = rw ((bytes_eq_iff k key).1 same) value
  Under-raw_value key ((k, w) ∷ more) v (inr (other, there)) = elim (Bool-cases (bytes_eq k key)) [
    | inl same ↦ absurd (other ((bytes_eq_iff k key).0 same))
    | inr differs ↦ rw differs (Under-raw_value key more v there)
  ]

  raw_value-Under :
      (key : Bytes) (raw : List (Bytes × Bytes))
      → raw_value raw key ≢ []
      → Under key raw (raw_value raw key)
  unfolding raw_value
  raw_value-Under key [] h = absurd (h refl)
  raw_value-Under key ((k, w) ∷ more) h = elim (Bool-cases (bytes_eq k key)) [
    | inl same ↦ inl ((bytes_eq_iff k key).0 same, rw same refl)
    | inr differs ↦ inr (
      (λ same. cc (differs, (bytes_eq_iff k key).1 same)),
      rw differs (raw_value-Under key more (rw differs at h)),
    )
  ]

  module _ (raw_object : Bytes → Fallible (List (Bytes × Bytes))) where
    abbrev extracted : Bytes → Fallible Bytes
    extracted = extract_body json_string raw_object canonical

    extract_lem :
        (v body : Bytes)
        → ((v ≢ [])
            × ((json_string v ≡ ok body) ⊎ (((x : Bytes) × (json_string v ≡ err x)) × (body ≡ v))))
          ↔ (extracted v ≡ ok body)
    unfolding extract_body
    extract_lem [] body = (λ h. absurd (h.0 refl), λ h. cc)
    extract_lem (c ∷ v) body = elim (Fallible-cases (json_string (c ∷ v))) [
      | inl (s, decoded) ↦ (
        λ (full, h). elim h [
          | inl same ↦ ground (arith, decoded, same)
          | inr ((x, failed), same) ↦ cc
        ],
        λ h. (λ empty. cc, inl (ground (arith, decoded, h))),
      )
      | inr (x, failed) ↦ (
        λ (full, h). elim h [ inl decoded ↦ cc | inr (lost, same) ↦ ground (arith, failed, same) ],
        λ h. (λ empty. cc, inr ((x, failed), ground (arith, failed, h))),
      )
    ]

    pub BodyIs-extract_body :
        (raw : List (Bytes × Bytes)) (body : Bytes)
        → BodyIs raw body
        → extracted (raw_value raw (codes "body")) ≡ ok body
    BodyIs-extract_body raw body (v, there, full, h) =
        rw (Under-raw_value (codes "body") raw v there) ((extract_lem v body).0 (full, h))

    pub extract_body-BodyIs :
        (raw : List (Bytes × Bytes)) (body : Bytes)
        → extracted (raw_value raw (codes "body")) ≡ ok body
        → BodyIs raw body
    extract_body-BodyIs raw body h =
        let v = raw_value raw (codes "body") in
        let parts = (extract_lem v body).1 h in
        (v, raw_value-Under (codes "body") raw parts.0, parts.0, parts.1)

    abbrev header : List (Bytes × Bytes) → Bytes → Bytes → Bytes
    header = header_from json_string raw_object canonical

    -- What one entry does: it sets the header, or nothing.
    entry_cases :
        (a : Bytes × Bytes) (name : Bytes)
        → ((s : Bytes) × Sets a name s
            × ((found : Bytes) → set_by json_string raw_object canonical a name found ≡ s))
          ⊎ (((s : Bytes) → ¬ Sets a name s)
              × ((found : Bytes) → set_by json_string raw_object canonical a name found ≡ found))
    entry_cases (k, v) name = elim (Bool-cases (is_envelope k)) [
      | inl own ↦ inr (
        λ s h. ground (
          arith,
          own,
          h,
          bytes_eq_iff k (codes "body"),
          bytes_eq_iff k (codes "query"),
          bytes_eq_iff k (codes "timestamp"),
        ),
        λ found. rw (own, set_by) refl,
      )
      | inr foreign ↦ elim (Fallible-cases (json_string v)) [
        | inr (x, failed) ↦
            inr (λ s h. cc (h.3, failed), λ found. rw (foreign, failed, set_by) refl)
        | inl (s, decoded) ↦ elim (Bool-cases (bytes_eq (canonical k) (canonical name))) [
          | inl same ↦ inl (
            s,
            (
              λ at. ground (arith, foreign, bytes_eq_iff k (codes "body"), at),
              λ at. ground (arith, foreign, bytes_eq_iff k (codes "query"), at),
              λ at. ground (arith, foreign, bytes_eq_iff k (codes "timestamp"), at),
              decoded,
              (bytes_eq_iff (canonical k) (canonical name)).0 same,
            ),
            λ found. rw (foreign, decoded, same, set_by) refl,
          )
          | inr differs ↦ inr (
            λ s' h. cc (differs, (bytes_eq_iff (canonical k) (canonical name)).1 h.4),
            λ found. rw (foreign, decoded, differs, set_by) refl,
          )
        ]
      ]
    ]

    header_cases :
        (raw : List (Bytes × Bytes)) (name found : Bytes)
        → LastSet raw name (header raw name found)
          ⊎ ((header raw name found ≡ found) × ((s : Bytes) → ¬ LastSet raw name s))
    unfolding header_from
    header_cases [] name found = inr (refl, λ s h. elim h [ ])
    header_cases (a ∷ more) name found =
        let step = header_from-cons json_string raw_object canonical a more name found in
        let before = set_by json_string raw_object canonical a name found in
        elim (header_cases more name before) [
          | inl later ↦ inl (inl (subst (LastSet more name) (sym step) later))
          | inr (kept_it, nobody) ↦ elim (entry_cases a name) [
            | inl (s, sets, value) ↦
                inl (inr (subst (Sets a name) (sym (step ∙ kept_it ∙ value found)) sets, nobody))
            | inr (idle, value) ↦ inr (
              step ∙ kept_it ∙ value found,
              λ s h. elim h [ inl later ↦ nobody s later | inr (sets, rest) ↦ idle s sets ],
            )
          ]
        ]

    LastSet-unique :
        (raw : List (Bytes × Bytes)) (name s s' : Bytes)
        → LastSet raw name s
        → LastSet raw name s'
        → s ≡ s'
    LastSet-unique [] name s s' h k = elim h [ ]
    LastSet-unique (a ∷ more) name s s' (inl h) (inl k) = LastSet-unique more name s s' h k
    LastSet-unique (a ∷ more) name s s' (inl h) (inr (sets, nobody)) = absurd (nobody s h)
    LastSet-unique (a ∷ more) name s s' (inr (sets, nobody)) (inl k) = absurd (nobody s' k)
    LastSet-unique (a ∷ more) name s s' (inr (sets, nobody)) (inr (sets', none_after)) =
        cc (sets.3, sets'.3)

    pub header_from-HeaderIs :
        (raw : List (Bytes × Bytes)) (name : Bytes) → HeaderIs raw name (header raw name [])
    header_from-HeaderIs raw name = header_cases raw name []

    pub HeaderIs-header_from :
        (raw : List (Bytes × Bytes)) (name s : Bytes) → HeaderIs raw name s → s ≡ header raw name []
    HeaderIs-header_from raw name s (inl last) = elim (header_cases raw name []) [
      | inl own ↦ LastSet-unique raw name s (header raw name []) last own
      | inr (empty, nobody) ↦ absurd (nobody s last)
    ]
    HeaderIs-header_from raw name s (inr (empty, nobody)) = elim (header_cases raw name []) [
      | inl own ↦ absurd (nobody (header raw name []) own)
      | inr (same, rest) ↦ empty ∙ sym same
    ]
