-- ===== src/Protocol/Requests.antt =====
-- api_protocol.cpp: `serialise` and the seven request builders. A builder gives the body, or `none`
-- where the source returns 0.
use beer_tab.Common.{
  ℕ, ◌+◌, List, [], ◌∷◌, Option, none, some, Bool, true, Text, ascii, ℤ, pos, length, ltb,
  if◌then◌else◌,
}
use beer_tab.Protocol.Json.{ArduinoJson, Value, text, number, boolean}

abbrev pub max_request_bytes : ℕ
max_request_bytes = 640

module _ (json : ArduinoJson) where
  -- Measured first: a body that does not fit is refused, not cut.
  unfoldable pub serialise : List (Text × Value) → ℕ → Option Text
  serialise doc capacity =
      let body = ArduinoJson.serialize json doc in
      if ltb capacity (length body + 1) then none else some body

  module _ (capacity : ℕ) (token device : Text) where
    unfoldable pub build_sync : ℕ → Option Text
    unfolding serialise
    build_sync since_revision =
        serialise
          ((ascii "action", text (ascii "sync"))
            ∷ (ascii "token", text token)
            ∷ (ascii "device", text device)
            ∷ (ascii "since", number (pos since_revision))
            ∷ [])
          capacity

    unfoldable pub build_record_purchase : Text → Text → Text → ℤ → Bool → Text → Option Text
    unfolding serialise
    build_record_purchase transaction_id barcode product_name price_rappen free_item resident_id =
        serialise
          ((ascii "action", text (ascii "recordPurchase"))
            ∷ (ascii "token", text token)
            ∷ (ascii "device", text device)
            ∷ (ascii "transaction_id", text transaction_id)
            ∷ (ascii "barcode", text barcode)
            ∷ (ascii "name", text product_name)
            ∷ (ascii "price_rappen", number price_rappen)
            ∷ (ascii "free", boolean free_item)
            ∷ (ascii "resident_id", text resident_id)
            ∷ [])
          capacity

    unfoldable pub build_void_purchase : Text → Option Text
    unfolding serialise
    build_void_purchase transaction_id =
        serialise
          ((ascii "action", text (ascii "voidPurchase"))
            ∷ (ascii "token", text token)
            ∷ (ascii "device", text device)
            ∷ (ascii "transaction_id", text transaction_id)
            ∷ [])
          capacity

    unfoldable pub build_create_product : Text → Text → ℤ → Bool → Option Text
    unfolding serialise
    build_create_product barcode product_name price_rappen free_item =
        serialise
          ((ascii "action", text (ascii "createProduct"))
            ∷ (ascii "token", text token)
            ∷ (ascii "device", text device)
            ∷ (ascii "barcode", text barcode)
            ∷ (ascii "name", text product_name)
            ∷ (ascii "price_rappen", number price_rappen)
            ∷ (ascii "free", boolean free_item)
            ∷ (ascii "active", boolean true)
            ∷ [])
          capacity

    unfoldable pub build_change_price : Text → Text → ℤ → Bool → Option Text
    unfolding serialise
    build_change_price barcode product_name price_rappen free_item =
        serialise
          ((ascii "action", text (ascii "changePrice"))
            ∷ (ascii "token", text token)
            ∷ (ascii "device", text device)
            ∷ (ascii "barcode", text barcode)
            ∷ (ascii "name", text product_name)
            ∷ (ascii "price_rappen", number price_rappen)
            ∷ (ascii "free", boolean free_item)
            ∷ [])
          capacity

    unfoldable pub build_set_active : Text → Text → Bool → Option Text
    unfolding serialise
    build_set_active barcode product_name active =
        serialise
          ((ascii "action", text (ascii "setActive"))
            ∷ (ascii "token", text token)
            ∷ (ascii "device", text device)
            ∷ (ascii "barcode", text barcode)
            ∷ (ascii "name", text product_name)
            ∷ (ascii "active", boolean active)
            ∷ [])
          capacity

    unfoldable pub build_my_summary : Text → Option Text
    unfolding serialise
    build_my_summary resident_id =
        serialise
          ((ascii "action", text (ascii "mySummary"))
            ∷ (ascii "token", text token)
            ∷ (ascii "device", text device)
            ∷ (ascii "resident_id", text resident_id)
            ∷ [])
          capacity
