-- ===== src/Protocol/Responses/Laws.antt =====
-- api_protocol.cpp: what the parsers leave in their out-parameters.
use beer_tab.Common.{
  ℕ, zero, suc, ◌-◌, ◌≤◌, ◌≡◌, ◌≢◌, refl, List, [], ◌∷◌, Option, Bool, false, not, ◌&&◌, ◌||◌, ◌⊎◌,
  Text, ascii, length, ltb, leb, ◌==◌, Bool-cases, inl, inr, arith,
}
use beer_tab.Settings.{max_products, max_residents}
use beer_tab.Codec.Loops.{All}
use beer_tab.Protocol.Json.{ArduinoJson}
use beer_tab.Protocol.Responses.{
  sanitise, bytes_of, copy_sanitised, Outcome, ok, SyncResult, read_products, read_residents,
  read_tallies, read_sync, parse_sync, open_response, good, bad, Opened,
}

-- Neither a control character nor DEL.
abbrev pub IsPrintable : ℕ → Type 0
IsPrintable c = (0x20 ≤ c) × (c ≢ 0x7F)

abbrev IsClean : ℕ → Text → Type 0
IsClean room s = All IsPrintable s × (length s ≤ room)

sanitise-IsClean : (room : ℕ) (s : Text) → IsClean room (sanitise room s)
unfolding sanitise
sanitise-IsClean zero s = (tt, omega arith)
sanitise-IsClean (suc room) [] = (tt, omega arith)
sanitise-IsClean (suc room) (c ∷ s) = elim (Bool-cases (leb 0x20 c && not (c == 0x7F))) [
  | inl b ↦
      let (kept, fits) = sanitise-IsClean room s in
      rw b (((ground (arith, b), ground (arith, b)), kept), omega (arith, fits))
  | inr b ↦ rw b (sanitise-IsClean (suc room) s)
]

-- Whatever text the server sends, what is copied has no control character and no DEL, and leaves room
-- for the terminator.
pub copy_sanitised_lem :
    (cap : ℕ) (src : Option Text)
    → All IsPrintable (copy_sanitised cap src) × (length (copy_sanitised cap src) ≤ cap - 1)
unfolding copy_sanitised
copy_sanitised_lem cap src = sanitise-IsClean (cap - 1) (bytes_of src)

-- The lists fit the arrays of a `SyncResult`.
pub record IsSync (s : SyncResult) : Type 0 where
  pub products_fit : length s.products ≤ max_products
  pub residents_fit : length s.residents ≤ max_residents
  pub summary_fit : length s.summary ≤ max_residents

module _ (json : ArduinoJson) where
  open json use {Node, member, elements}

  length-read_products : (ns : List Node) → length (read_products json ns) ≤ length ns
  unfolding read_products
  length-read_products [] = omega arith
  length-read_products (n ∷ ns) = ground (arith, length-read_products ns)

  length-read_residents : (ns : List Node) → length (read_residents json ns) ≤ length ns
  unfolding read_residents
  length-read_residents [] = omega arith
  length-read_residents (n ∷ ns) = ground (arith, length-read_residents ns)

  length-read_tallies : (ns : List Node) → length (read_tallies json ns) ≤ length ns
  unfolding read_tallies
  length-read_tallies [] = omega arith
  length-read_tallies (n ∷ ns) = ground (arith, length-read_tallies ns)

  Opened-cases :
      (o : Opened json)
      → ((doc : Node) × (o ≡ good doc))
        ⊎ ((outcome : Outcome) × (err : Text) × (o ≡ bad outcome err))
  Opened-cases (good doc) = inl (doc, refl)
  Opened-cases (bad outcome err) = inr (outcome, err, refl)

  abbrev too_many : Node → Bool
  too_many doc =
      ltb max_products (length (elements (member doc (ascii "products"))))
      || ltb max_residents (length (elements (member doc (ascii "residents"))))
      || ltb max_residents (length (elements (member doc (ascii "summary"))))

  read_sync-IsSync : (doc : Node) → too_many doc ≡ false → IsSync (read_sync json doc)
  unfolding read_sync
  read_sync-IsSync doc h = record {
    products_fit =
        ground (arith, h, length-read_products (elements (member doc (ascii "products"))));
    residents_fit =
        ground (arith, h, length-read_residents (elements (member doc (ascii "residents"))));
    summary_fit = ground (arith, h, length-read_tallies (elements (member doc (ascii "summary"))));
  }

  -- Whatever the server sends, the sync result fits its arrays if it did before, and it is as it was
  -- unless the outcome is ok.
  pub parse_sync-IsSync :
      (body : Text) (out : SyncResult) (error_capacity : ℕ)
      → IsSync out
      → let (outcome, err, s) = parse_sync json body out error_capacity in
        IsSync s × ((outcome ≡ ok) ⊎ (s ≡ out))
  unfolding parse_sync read_sync
  parse_sync-IsSync body out cap v = elim (Opened-cases (open_response json cap body)) [
    | inr (o, err, e) ↦ rw (e, parse_sync) (v, inr refl)
    | inl (doc, e) ↦
        rw (e, parse_sync)
          (elim (Bool-cases (too_many doc)) [
            | inl b ↦ rw b (v, inr refl)
            | inr b ↦ rw b (read_sync-IsSync doc b, inl refl)
          ])
  ]
