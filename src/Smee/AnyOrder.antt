-- ===== src/Smee/AnyOrder.antt =====
-- internal/smee/client.go: the order in which Go ranges over the entries of an event.
use mathlib.Core.List.Permᴰ
use mathlib.Core.List.Pairwise
use mathlib.Core.List.{Pairwise, Permᴰ, mem-cons_self, rel_of_Pairwise-cons}
use mathlib.Core.Path.{fun_ext}
use autoscaler.Common.{
  List, [], ap, arith, false, if◌then◌else◌, inl, inr, refl, sym, true, ◌∙◌, ◌∷◌, ◌≡◌,
}
use autoscaler.Config.{Config}
use autoscaler.Env.{Env}
use autoscaler.Smee.{extract_body, handle_message, header_from, is_envelope, raw_value}
use autoscaler.Text.{Bytes, bytes_eq, codes}
use autoscaler.Text.Equality.{bytes_eq_iff}
use autoscaler.Webhook.{WorkflowJobEvent, dispatch}
use autoscaler.World.{Fallible, Fallible-cases, M, Machine, Spawner, err, ok, pure, ◌>>◌}

abbrev pub Entry : Type 0
Entry = Bytes × Bytes

-- Two entries whose names differ also in canonical form.
abbrev pub Differ : (Bytes → Bytes) → Entry → Entry → Type 0
Differ canonical a b = bytes_eq (canonical a.0) (canonical b.0) ≡ false

module _ (json_string : Bytes → Fallible Bytes)
    (raw_object : Bytes → Fallible (List (Bytes × Bytes))) (canonical : Bytes → Bytes) where
  -- What an entry makes of the value found so far.
  abbrev pub set_by : Entry → Bytes → Bytes → Bytes
  set_by (k, v) name found = elim (is_envelope k) [
    | true ↦ found
    | false ↦ elim (json_string v) [
      | err x ↦ found
      | ok s ↦ if bytes_eq (canonical k) (canonical name) then s else found
    ]
  ]

  pub header_from-cons :
      (a : Entry) (more : List Entry) (name found : Bytes)
      → header_from json_string raw_object canonical (a ∷ more) name found
        ≡ header_from json_string raw_object canonical more name (set_by a name found)
  unfolding header_from
  header_from-cons (k, v) more name found = ground arith

  set_by_comm :
      (a b : Entry) (name found : Bytes)
      → Differ canonical a b
      → set_by a name (set_by b name found) ≡ set_by b name (set_by a name found)
  set_by_comm (k, v) (k', v') name found h = ground (
    arith,
    h,
    bytes_eq_iff (canonical k) (canonical name),
    bytes_eq_iff (canonical k') (canonical name),
    bytes_eq_iff (canonical k) (canonical k'),
  )

  Differ-symm : (a b : Entry) → Differ canonical a b → Differ canonical b a
  Differ-symm (k, v) (k', v') h = ground (
    arith,
    h,
    bytes_eq_iff (canonical k) (canonical k'),
    bytes_eq_iff (canonical k') (canonical k),
  )

  Pairwise-Permᴰ :
      {l₁ l₂ : List Entry}
      → Permᴰ l₁ l₂
      → Pairwise (Differ canonical) l₁
      → Pairwise (Differ canonical) l₂
  Pairwise-Permᴰ p w = Permᴰ.pairwise (λ a b. hlevel) Differ-symm p w

  header_from-swap :
      (a b : Entry) (l : List Entry) (name found : Bytes)
      → Differ canonical a b
      → header_from json_string raw_object canonical (a ∷ b ∷ l) name found
        ≡ header_from json_string raw_object canonical (b ∷ a ∷ l) name found
  header_from-swap a b l name found h =
      header_from-cons a (b ∷ l) name found
      ∙ header_from-cons b l name (set_by a name found)
      ∙ ap (header_from json_string raw_object canonical l name)
          (set_by_comm b a name found (Differ-symm a b h))
      ∙ sym (header_from-cons a l name (set_by b name found))
      ∙ sym (header_from-cons b (a ∷ l) name found)

  header_from-Permᴰ :
      {l₁ l₂ : List Entry} (name found : Bytes)
      → Permᴰ l₁ l₂
      → Pairwise (Differ canonical) l₁
      → header_from json_string raw_object canonical l₁ name found
        ≡ header_from json_string raw_object canonical l₂ name found
  header_from-Permᴰ name found Permᴰ.nil w = refl
  header_from-Permᴰ name found (Permᴰ.cons {a} {b} {l₁} {l₂} same p) w =
      header_from-cons a l₁ name found
      ∙ header_from-Permᴰ name (set_by a name found) p (Pairwise.of_cons w)
      ∙ ap (λ x. header_from json_string raw_object canonical l₂ name (set_by x name found)) same
      ∙ sym (header_from-cons b l₂ name found)
  header_from-Permᴰ name found (Permᴰ.swap {a} {b} {a'} {b'} {l} one two) w =
      header_from-swap a b l name found (rel_of_Pairwise-cons w mem-cons_self)
      ∙ ap (λ c. header_from json_string raw_object canonical (b ∷ c ∷ l) name found) one
      ∙ ap (λ c. header_from json_string raw_object canonical (c ∷ b' ∷ l) name found) two
  header_from-Permᴰ name found (Permᴰ.trans p q) w =
      header_from-Permᴰ name found p w ∙ header_from-Permᴰ name found q (Pairwise-Permᴰ p w)

  raw_value-swap :
      (a b : Entry) (l : List Entry) (key : Bytes)
      → Differ canonical a b
      → raw_value (a ∷ b ∷ l) key ≡ raw_value (b ∷ a ∷ l) key
  unfolding raw_value
  raw_value-swap (k, v) (k', v') l key h =
      ground (
        arith,
        h,
        bytes_eq_iff k key,
        bytes_eq_iff k' key,
        bytes_eq_iff (canonical k) (canonical k'),
      )

  raw_value-Permᴰ :
      {l₁ l₂ : List Entry} (key : Bytes)
      → Permᴰ l₁ l₂
      → Pairwise (Differ canonical) l₁
      → raw_value l₁ key ≡ raw_value l₂ key
  unfolding raw_value
  raw_value-Permᴰ key Permᴰ.nil w = refl
  raw_value-Permᴰ key (Permᴰ.cons {a} {b} {l₁} {l₂} same p) w =
      ap (λ v. if bytes_eq a.0 key then a.1 else v) (raw_value-Permᴰ key p (Pairwise.of_cons w))
      ∙ ap (λ c. raw_value (c ∷ l₂) key) same
  raw_value-Permᴰ key (Permᴰ.swap {a} {b} {a'} {b'} {l} one two) w =
      raw_value-swap a b l key (rel_of_Pairwise-cons w mem-cons_self)
      ∙ ap (λ c. raw_value (b ∷ c ∷ l) key) one
      ∙ ap (λ c. raw_value (c ∷ b' ∷ l) key) two
  raw_value-Permᴰ key (Permᴰ.trans p q) w =
      raw_value-Permᴰ key p w ∙ raw_value-Permᴰ key q (Pairwise-Permᴰ p w)

-- What is done with a body and with the headers of an event.
abbrev handled :
    Env
    → Spawner
    → Config
    → (Bytes → Fallible WorkflowJobEvent)
    → Fallible Bytes
    → (Bytes → Bytes)
    → M (Unit {0})
handled e sp cfg unmarshal (err x) headers = pure tt
handled e sp cfg unmarshal (ok body) headers = do dispatch e sp cfg headers body unmarshal; pure tt

handle_message-handled :
    (json_string : Bytes → Fallible Bytes) (raw_object : Bytes → Fallible (List (Bytes × Bytes)))
    (canonical : Bytes → Bytes) (e : Env) (sp : Spawner) (cfg : Config)
    (unmarshal : Bytes → Fallible WorkflowJobEvent) (text : Bytes) (raw : List Entry) (m : Machine)
    → raw_object text ≡ ok raw
    → handle_message json_string raw_object canonical e sp cfg unmarshal text m
      ≡ handled e sp cfg unmarshal
          (extract_body json_string raw_object canonical (raw_value raw (codes "body")))
          (λ name. header_from json_string raw_object canonical raw name [])
          m
unfolding handle_message
handle_message-handled json_string raw_object canonical e sp cfg unmarshal text raw m parsed =
    elim (Fallible-cases
      (extract_body json_string raw_object canonical (raw_value raw (codes "body")))) [
        | inl (body, there) ↦ ground (arith, parsed, there)
        | inr (x, empty) ↦ ground (arith, parsed, empty)
      ]

-- Two decoders, which may order the entries of an object differently.
module _ (json_string : Bytes → Fallible Bytes)
    (raw_object raw_object' : Bytes → Fallible (List (Bytes × Bytes)))
    (canonical : Bytes → Bytes) where
  header_from_same :
      (raw : List Entry) (name found : Bytes)
      → header_from json_string raw_object canonical raw name found
        ≡ header_from json_string raw_object' canonical raw name found
  unfolding header_from
  header_from_same [] name found = refl
  header_from_same ((k, v) ∷ raw) name found =
      header_from-cons json_string raw_object canonical (k, v) raw name found
      ∙ header_from_same raw name (set_by json_string raw_object canonical (k, v) name found)
      ∙ sym (header_from-cons json_string raw_object' canonical (k, v) raw name found)

  extract_body_same :
      (raw : Bytes)
      → extract_body json_string raw_object canonical raw
        ≡ extract_body json_string raw_object' canonical raw
  unfolding extract_body
  extract_body_same [] = refl
  extract_body_same (c ∷ raw) = refl

  -- The handling of an event does not depend on the order in which Go ranges over its entries,
  -- where no two of their names are one header name up to its canonical form.
  pub handle_message_any_order :
      (e : Env) (sp : Spawner) (cfg : Config) (unmarshal : Bytes → Fallible WorkflowJobEvent)
      (text : Bytes) (raw raw' : List Entry) (m : Machine)
      → raw_object text ≡ ok raw
      → raw_object' text ≡ ok raw'
      → Permᴰ raw raw'
      → Pairwise (Differ canonical) raw
      → handle_message json_string raw_object canonical e sp cfg unmarshal text m
        ≡ handle_message json_string raw_object' canonical e sp cfg unmarshal text m
  handle_message_any_order e sp cfg unmarshal text raw raw' m parsed parsed' p w =
      let body =
        ap (extract_body json_string raw_object canonical)
          (raw_value-Permᴰ json_string raw_object canonical (codes "body") p w)
        ∙ extract_body_same (raw_value raw' (codes "body")) in
      let headers = fun_ext (λ name.
        header_from-Permᴰ json_string raw_object canonical name [] p w
        ∙ header_from_same raw' name []) in
      handle_message-handled json_string raw_object canonical e sp cfg unmarshal text raw m parsed
      ∙ ap
          (λ b.
            handled e sp cfg unmarshal b
              (λ name. header_from json_string raw_object canonical raw name []) m)
          body
      ∙ ap
          (λ h.
            handled e sp cfg unmarshal
              (extract_body json_string raw_object' canonical (raw_value raw' (codes "body"))) h m)
          headers
      ∙ sym (
          handle_message-handled json_string raw_object' canonical e sp cfg unmarshal text raw' m
            parsed')
