-- ===== src/Search/Identifier/Laws.antt =====
-- What `newID` of internal/search/identifier.go promises to whoever holds an identifier.
use kinetix_search_service.Common.{
  ◌≤◌, ◌≡◌, refl, sym, ◌∙◌, ap, false, Text, is_empty, any, byte_len, trim_space, arith, ok, err,
}
use kinetix_search_service.Common.Strings.Trim.{trim_space_idem}
use kinetix_search_service.Search.Errors.{Result, GoError, errf, kind_of, malformed_query}
use kinetix_search_service.Search.Identifier.{
  Identifier, is_control, max_id_length, id_of_trimmed, new_id, product_identifier,
  merchant_identifier, order_identifier, buyer_identifier,
}

-- The text of an identifier: trimmed, not empty, at most 64 bytes, free of control bytes.
pub record IsIdText (s : Text) : Type 0 where
  pub trimmed : trim_space s ≡ s
  pub filled : is_empty s ≡ false
  pub short : byte_len s ≤ max_id_length
  pub printable : any is_control s ≡ false

-- `set` of the zero value makes the identifier that `String` reads back.
pub record IsLawful {T : Type 0} (i : Identifier T) : Type 0 where
  pub string-set : (s : Text) → i.string (i.set_id i.zero_id s) ≡ s
  pub set-string : (t : T) → i.set_id i.zero_id (i.string t) ≡ t

module _ {T : Type 0} ⦃i : Identifier T⦄ (lawful : IsLawful i) where
  id_of_trimmed-inv :
      (s op : Text) {t : T}
      → id_of_trimmed s op ≡ ok t
      → (is_empty s ≡ false)
        × (byte_len s ≤ max_id_length)
        × (any is_control s ≡ false)
        × (i.set_id i.zero_id s ≡ t)
  unfolding id_of_trimmed
  id_of_trimmed-inv s op h = ground arith

  id_of_trimmed-IsIdText :
      (s op : Text) → IsIdText s → id_of_trimmed s op ≡ ok (i.set_id i.zero_id s)
  unfolding id_of_trimmed
  id_of_trimmed-IsIdText s op v = ground (arith, v.filled, v.short, v.printable)

  string-new_id : (raw op : Text) {t : T} → new_id raw op ≡ ok t → i.string t ≡ trim_space raw
  unfolding new_id
  string-new_id raw op h =
      ap i.string (sym (id_of_trimmed-inv (trim_space raw) op h).3)
      ∙ lawful.string-set (trim_space raw)

  -- An identifier that was accepted has a trimmed, non-empty text of at most 64 bytes with no
  -- control byte.
  pub new_id-IsIdText : (raw op : Text) {t : T} → new_id raw op ≡ ok t → IsIdText (i.string t)
  unfolding new_id
  new_id-IsIdText raw op h =
      let (filled, short, printable, same) = id_of_trimmed-inv (trim_space raw) op h in
      rw (string-new_id raw op h) (record {
        trimmed = trim_space_idem raw;
        filled = filled;
        short = short;
        printable = printable;
      })

  -- A text of that form is accepted, as it stands.
  pub new_id_complete : (s op : Text) → IsIdText s → new_id s op ≡ ok (i.set_id i.zero_id s)
  unfolding new_id
  new_id_complete s op v = ap (λ r. id_of_trimmed r op) v.trimmed ∙ id_of_trimmed-IsIdText s op v

  -- The text of an accepted identifier is accepted again, as the same identifier.
  pub new_id-string :
      (raw op again : Text) {t : T} → new_id raw op ≡ ok t → new_id (i.string t) again ≡ ok t
  new_id-string raw op again {t} h =
      new_id_complete (i.string t) again (new_id-IsIdText raw op h) ∙ ap ok (lawful.set-string t)

pub new_id_malformed :
    {T : Type 0} ⦃i : Identifier T⦄ (raw op : Text) {e : GoError}
    → new_id {T = T} raw op ≡ err e
    → kind_of e ≡ malformed_query
unfolding new_id id_of_trimmed errf kind_of
new_id_malformed raw op h = ground arith

module _ {T : Type 0} ⦃i : Identifier T⦄ (lawful : IsLawful i) where
  -- What `newID` makes of a text.
  abbrev pub Accepts : Text → Result T → Type 0
  Accepts raw (ok t) =
      IsIdText (i.string t)
      × (i.string t ≡ trim_space raw)
      × ((again : Text) → new_id (i.string t) again ≡ ok t)
  Accepts raw (err e) = (kind_of e ≡ malformed_query) × ¬ IsIdText (trim_space raw)

  accepted : (raw op : Text) (r : Result T) → new_id raw op ≡ r → Accepts raw r
  unfolding new_id
  accepted raw op (ok t) h = (
    new_id-IsIdText lawful raw op h,
    string-new_id lawful raw op h,
    λ again. new_id-string lawful raw op again h,
  )
  accepted raw op (err e) h = (
    new_id_malformed raw op h,
    λ v. cc (sym (id_of_trimmed-IsIdText lawful (trim_space raw) op v) ∙ h),
  )

  -- A text is accepted as an identifier exactly if, trimmed, it is not empty, has at most 64 bytes and
  -- no control byte. The identifier then has the trimmed text, and that text is accepted again as the
  -- same identifier; any other text is refused as malformed.
  pub new_id-Accepts : (raw op : Text) → Accepts raw (new_id raw op)
  new_id-Accepts raw op = accepted raw op (new_id raw op) refl

pub product_IsLawful : IsLawful product_identifier
product_IsLawful = record { string-set = λ s. refl; set-string = λ t. refl }

pub merchant_IsLawful : IsLawful merchant_identifier
merchant_IsLawful = record { string-set = λ s. refl; set-string = λ t. refl }

pub order_IsLawful : IsLawful order_identifier
order_IsLawful = record { string-set = λ s. refl; set-string = λ t. refl }

pub buyer_IsLawful : IsLawful buyer_identifier
buyer_IsLawful = record { string-set = λ s. refl; set-string = λ t. refl }
