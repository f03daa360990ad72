-- ===== src/Protocol/Responses.antt =====
-- api_protocol.cpp: `copy_sanitised` and the three parsers. A parser gives the outcome, the error
-- text, and what it left in its out-parameter.
pub mod Laws
use beer_tab.Common.{
  ℕ, zero, suc, ◌+◌, ◌-◌, ◌%◌, List, [], ◌∷◌, ◌++◌, Option, none, some, Bool, true, false, not,
  ◌&&◌, ◌||◌, Text, ascii, is_empty, ℤ, pos, negsuc, length, ltb, leb, ◌==◌, if◌then◌else◌,
}
use beer_tab.Settings.{max_products, max_residents}
use beer_tab.Records.{Product, Resident, Tally}
use beer_tab.Protocol.Json.{ArduinoJson}

-- The loop of `copy_sanitised`, with `room` characters left.
sanitise : ℕ → Text → Text
sanitise zero src = []
sanitise (suc room) [] = []
sanitise (suc room) (c ∷ s) =
    let kept = sanitise room s in
    let dropped = sanitise (suc room) s in
    if leb 0x20 c && not (c == 0x7F) then c ∷ kept else dropped

abbrev bytes_of : Option Text → Text
bytes_of none = []
bytes_of (some s) = s

-- The terminator takes one of the `dst_cap` bytes.
unfoldable pub copy_sanitised : ℕ → Option Text → Text
unfolding sanitise
copy_sanitised dst_cap src = sanitise (dst_cap - 1) (bytes_of src)

pub data Outcome : Type 0 where
  ok malformed rejected too_many_items : Outcome

pub record SyncResult : Type 0 where
  pub revision : ℕ
  pub changed : Bool
  pub has_summary : Bool
  pub products : List Product
  pub residents : List Resident
  pub summary : List Tally

-- `MySummary::Row`.
pub record Row : Type 0 where
  pub name : Text
  pub drinks : ℕ
  pub total_rappen : ℤ

pub record MySummary : Type 0 where
  pub resident_name : Text
  pub drinks : ℕ
  pub total_rappen : ℤ
  pub products : List Row

abbrev pub max_summary_products : ℕ
max_summary_products = 12

-- `drinks > 0 ? static_cast<uint16_t>(drinks) : 0`.
abbrev pub drinks_of : ℤ → ℕ
drinks_of (pos n) = n % 65536
drinks_of (negsuc n) = 0

module _ (json : ArduinoJson) where
  open json use {
    Node, deserialize, member, is_bool, as_bool, as_text, as_i32, as_u32, is_array, elements,
  }

  abbrev text_at : Node → Text → Option Text
  text_at n key = as_text (member n key)

  abbrev or_else : Option Text → Text → Text
  or_else none t = t
  or_else (some s) t = s

  -- What all three parsers check first: the document, or the outcome and the error text.
  pub data Opened : Type 0 where
    good : Node → Opened
    bad : Outcome → Text → Opened

  unfoldable pub open_response : ℕ → Text → Opened
  unfolding copy_sanitised
  open_response error_capacity body = elim (deserialize body) [
    | none ↦ bad malformed (copy_sanitised error_capacity (some (ascii "Antwort unlesbar")))
    | some doc ↦
        if not (is_bool (member doc (ascii "ok")))
        then bad malformed (copy_sanitised error_capacity (some (ascii "Antwort unvollstaendig")))
        else if not (as_bool (member doc (ascii "ok")))
        then bad rejected (
            copy_sanitised error_capacity
              (some (or_else (text_at doc (ascii "error")) (ascii "Server hat abgelehnt"))))
        else good doc
  ]

  read_product : Node → Product
  unfolding copy_sanitised
  read_product p = record {
    barcode = copy_sanitised 14 (text_at p (ascii "barcode"));
    name = copy_sanitised 40 (text_at p (ascii "name"));
    price_rappen = as_i32 (member p (ascii "price_rappen"));
    free_item = as_bool (member p (ascii "free"));
    image_url = copy_sanitised 160 (text_at p (ascii "image_url"));
    active =
        if is_bool (member p (ascii "active")) then as_bool (member p (ascii "active")) else true;
  }

  -- A nameless product is unusable.
  read_products : List Node → List Product
  read_products [] = []
  read_products (n ∷ ns) =
      let rest = read_products ns in
      if is_empty (read_product n).name then rest else read_product n ∷ rest

  read_resident : Node → Resident
  unfolding copy_sanitised
  read_resident r = record {
    id = copy_sanitised 12 (text_at r (ascii "id"));
    name = copy_sanitised 24 (text_at r (ascii "name"));
  }

  read_residents : List Node → List Resident
  read_residents [] = []
  read_residents (n ∷ ns) =
      let rest = read_residents ns in
      if is_empty (read_resident n).id || is_empty (read_resident n).name
      then rest
      else read_resident n ∷ rest

  read_tally : Node → Tally
  unfolding copy_sanitised
  read_tally r = record {
    resident_id = copy_sanitised 12 (text_at r (ascii "resident_id"));
    resident_name = copy_sanitised 24 (text_at r (ascii "name"));
    drinks = drinks_of (as_i32 (member r (ascii "drinks")));
    total_rappen = as_i32 (member r (ascii "total_rappen"));
  }

  read_tallies : List Node → List Tally
  read_tallies [] = []
  read_tallies (n ∷ ns) =
      let rest = read_tallies ns in
      if is_empty (read_tally n).resident_id then rest else read_tally n ∷ rest

  read_sync : Node → SyncResult
  unfolding read_products read_product read_residents read_resident read_tallies read_tally
  read_sync doc = record {
    revision = as_u32 (member doc (ascii "revision"));
    changed = as_bool (member doc (ascii "changed"));
    has_summary = is_array (member doc (ascii "summary"));
    products = read_products (elements (member doc (ascii "products")));
    residents = read_residents (elements (member doc (ascii "residents")));
    summary = read_tallies (elements (member doc (ascii "summary")));
  }

  -- `out` is what stands in the out-parameter; it is written once everything has been checked.
  unfoldable pub parse_sync : Text → SyncResult → ℕ → Outcome × Text × SyncResult
  unfolding open_response read_sync
  parse_sync body out error_capacity = elim (open_response error_capacity body) [
    | bad o e ↦ (o, e, out)
    | good doc ↦
        if ltb max_products (length (elements (member doc (ascii "products"))))
          || ltb max_residents (length (elements (member doc (ascii "residents"))))
          || ltb max_residents (length (elements (member doc (ascii "summary"))))
        then (
          too_many_items,
          copy_sanitised error_capacity (some (ascii "Zu viele Eintraege")),
          out,
        )
        else (ok, [], read_sync doc)
  ]

  -- The outcome, the error text, and `*duplicate`.
  unfoldable pub parse_ack : Text → ℕ → Outcome × Text × Bool
  unfolding open_response
  parse_ack body error_capacity = elim (open_response error_capacity body) [
    | bad o e ↦ (o, e, false)
    | good doc ↦ (ok, [], as_bool (member doc (ascii "duplicate")))
  ]

  read_row : Node → Row
  unfolding copy_sanitised
  read_row r = record {
    name = copy_sanitised 40 (text_at r (ascii "name"));
    drinks = drinks_of (as_i32 (member r (ascii "drinks")));
    total_rappen = as_i32 (member r (ascii "total_rappen"));
  }

  read_rows : List Node → List Row
  read_rows [] = []
  read_rows (n ∷ ns) =
      let rest = read_rows ns in if is_empty (read_row n).name then rest else read_row n ∷ rest

  unfoldable pub parse_my_summary : Text → MySummary → ℕ → Outcome × Text × MySummary
  unfolding open_response read_rows read_row
  parse_my_summary body out error_capacity = elim (open_response error_capacity body) [
    | bad o e ↦ (o, e, out)
    | good doc ↦
        let rows = elements (member doc (ascii "products")) in
        if ltb max_summary_products (length rows) then (too_many_items, [], out) else (
          ok,
          [],
          record {
            resident_name = copy_sanitised 24 (text_at doc (ascii "resident_name"));
            drinks = drinks_of (as_i32 (member doc (ascii "drinks")));
            total_rappen = as_i32 (member doc (ascii "total_rappen"));
            products = read_rows rows;
          },
        )
  ]
