-- ===== src/Polymarket/Winner.antt =====
-- backend/app/integrations/polymarket/adapter.py: which of a market's outcomes won at Gamma, and
-- `detect_resolution`.
use xpredict.Prelude.{
  ℕ, ◌≡◌, refl, ap, Bool, true, false, String, Option, none, some, List, [], ◌∷◌, ◌++◌, text_eq,
  if◌then◌else◌, inl, inr, arith, first_chars, Bool-cases, length, All,
}
use xpredict.Money.Errors.{Error, Result, ok, err, value_error}
use xpredict.Database.Rows.{Db, Market, Outcome, MarketStatus, resolved}
use xpredict.Settlement.Port.{market?}
use xpredict.Events.{is_resolved}
use xpredict.Polymarket.Gamma.{GammaMarket, internal_status, is_in, text_eq-path}

abbrev pub is_winner_price : String → Bool
is_winner_price p = is_in p ("1" ∷ "1.0" ∷ [])

-- `outcomes_raw[winner_idx]`, for the first price that is 1
abbrev pub winner_label : List String → List String → Option String
winner_label [] labels = none
winner_label (p ∷ prices) [] = none
winner_label (p ∷ prices) (label ∷ labels) =
    if is_winner_price p then some label else winner_label prices labels

-- `label_to_id.get(…)`: of two outcomes with one label, the later is in the dict.
abbrev pub label_to_id : String → List Outcome → Option ℕ
label_to_id label [] = none
label_to_id label (o ∷ outcomes) = elim (label_to_id label outcomes) [
  | some x ↦ some x
  | none ↦ if text_eq o.label label then some o.id else none
]

abbrev outcome_or_error : Option ℕ → Result ℕ
outcome_or_error none = err value_error
outcome_or_error (some x) = ok x

abbrev find_winner : Option String → List Outcome → Result ℕ
find_winner none outcomes = err value_error
find_winner (some label) outcomes = outcome_or_error (label_to_id (first_chars 50 label) outcomes)

-- `_map_winning_outcome_id`
unfoldable pub map_winning_outcome_id : List String → List String → List Outcome → Result ℕ
map_winning_outcome_id prices labels outcomes = find_winner (winner_label prices labels) outcomes

-- What a request to Gamma for one market ends in: HTTP 404, a body that does not validate, a market,
-- or the exception that is left after the client's retries.
pub data Answer : Type 0 where
  missing malformed : Answer
  market : GammaMarket → Answer
  failed : Error → Answer

abbrev winner_or_none : Result ℕ → Option ℕ
winner_or_none (ok x) = some x
winner_or_none (err e) = none

abbrev resolution_of : Market → Answer → Result (Option ℕ)
resolution_of m missing = ok none
resolution_of m malformed = ok none
resolution_of m (failed e) = err e
resolution_of m (market parsed) =
    if is_resolved (internal_status parsed)
    then ok (
        winner_or_none
          (map_winning_outcome_id parsed.outcome_prices_raw parsed.outcomes_raw m.outcomes))
    else ok none

abbrev detect_source : (String → Answer) → Market → Option String → Result (Option ℕ)
detect_source fetch m none = ok none
detect_source fetch m (some source_id) = resolution_of m (fetch source_id)

abbrev detect_market : (String → Answer) → Option Market → Result (Option ℕ)
detect_market fetch none = ok none
detect_market fetch (some m) = detect_source fetch m m.source_market_id

-- `PolymarketAdapter.detect_resolution`: the winning outcome of the `ResolutionResult`; the source
-- and the confidence in it are constants.
unfoldable pub detect_resolution : (String → Answer) → ℕ → Db → Result (Option ℕ)
unfolding map_winning_outcome_id market?
detect_resolution fetch market_id s = detect_market fetch (market? market_id s.markets)

-- The outcome `o` is among `outcomes`.
abbrev pub IsAmong : Outcome → List Outcome → Type 0
IsAmong o outcomes = (before after : List Outcome) × (outcomes ≡ before ++ o ∷ after)

abbrev Labelled : String → List Outcome → ℕ → Type 0
Labelled label outcomes x = (o : Outcome) × IsAmong o outcomes × (o.label ≡ label) × (o.id ≡ x)

label_to_id-Labelled :
    (label : String) (outcomes : List Outcome) (x : ℕ)
    → label_to_id label outcomes ≡ some x
    → Labelled label outcomes x
label_to_id-Labelled label [] x h = absurd (cc h)
label_to_id-Labelled label (o ∷ outcomes) x h =
    go (label_to_id label outcomes) (label_to_id-Labelled label outcomes x) h
  where
    go :
        (r : Option ℕ)
        → (r ≡ some x → Labelled label outcomes x)
        → elim r [ some y ↦ some y | none ↦ if text_eq o.label label then some o.id else none ]
          ≡ some x
        → Labelled label (o ∷ outcomes) x
    go (some y) later k =
        let (o', (before, after, e), l, i) = later k in
        (o', (o ∷ before, after, ap (λ r. o ∷ r) e), l, i)
    go none later k = elim (Bool-cases (text_eq o.label label)) [
      | inl e ↦ (o, ([], outcomes, refl), text_eq-path o.label label e, ground (arith, k, e))
      | inr ne ↦ absurd (ground (arith, k, ne))
    ]

-- The label stands in its list where the first price of 1 stands in its.
abbrev pub Won : List String → List String → String → Type 0
Won prices labels label =
    (p : String) × (before after : List String) × (labels_before labels_after : List String)
    × (prices ≡ before ++ p ∷ after)
    × (labels ≡ labels_before ++ label ∷ labels_after)
    × (length labels_before ≡ length before)
    × (is_winner_price p ≡ true)
    × All (λ q. is_winner_price q ≡ false) before

winner_label-Won :
    (prices labels : List String) (label : String)
    → winner_label prices labels ≡ some label
    → Won prices labels label
winner_label-Won [] labels label h = absurd (cc h)
winner_label-Won (p ∷ prices) [] label h = absurd (cc h)
winner_label-Won (p ∷ prices) (l ∷ labels) label h = elim (Bool-cases (is_winner_price p)) [
  | inl e ↦
      let same : l ≡ label = ground (arith, h, e) in
      (p, [], prices, [], labels, refl, ap (λ x. x ∷ labels) same, refl, e, tt)
  | inr ne ↦
      let rest : winner_label prices labels ≡ some label = ground (arith, h, ne) in
      let (q, b, a, lb, la, e1, e2, n, w, no_winner) = winner_label-Won prices labels label rest in
      (
        q,
        p ∷ b,
        a,
        l ∷ lb,
        la,
        ap (λ x. p ∷ x) e1,
        ap (λ x. l ∷ x) e2,
        omega (arith, n),
        w,
        (ne, no_winner),
      )
]

-- The outcome that has the first 50 characters of the winner's label.
abbrev pub WinsAtGamma : GammaMarket → Market → ℕ → Type 0
WinsAtGamma parsed m x =
    (label : String) × Won parsed.outcome_prices_raw parsed.outcomes_raw label
    × Labelled (first_chars 50 label) m.outcomes x

pub map_winning_outcome_id-WinsAtGamma :
    (parsed : GammaMarket) (m : Market) (x : ℕ)
    → map_winning_outcome_id parsed.outcome_prices_raw parsed.outcomes_raw m.outcomes ≡ ok x
    → WinsAtGamma parsed m x
unfolding map_winning_outcome_id
map_winning_outcome_id-WinsAtGamma parsed m x h =
    go (winner_label parsed.outcome_prices_raw parsed.outcomes_raw)
      (winner_label-Won parsed.outcome_prices_raw parsed.outcomes_raw) h
  where
    found : (o : Option ℕ) → outcome_or_error o ≡ ok x → o ≡ some x
    found none k = absurd (cc k)
    found (some y) k = cc k

    go :
        (r : Option String)
        → ((label : String)
            → r ≡ some label
            → Won parsed.outcome_prices_raw parsed.outcomes_raw label)
        → find_winner r m.outcomes ≡ ok x
        → WinsAtGamma parsed m x
    go none won k = absurd (cc k)
    go (some label) won k = (
      label,
      won label refl,
      label_to_id-Labelled (first_chars 50 label) m.outcomes x (found _ k),
    )

resolution_of-some :
    (m : Market) (answer : Answer) (x : ℕ)
    → resolution_of m answer ≡ ok (some x)
    → (parsed : GammaMarket) × (answer ≡ market parsed)
      × (internal_status parsed ≡ resolved)
      × WinsAtGamma parsed m x
resolution_of-some m missing x h = absurd (cc h)
resolution_of-some m malformed x h = absurd (cc h)
resolution_of-some m (failed e) x h = absurd (cc h)
resolution_of-some m (market parsed) x h = (
  parsed,
  refl,
  status (internal_status parsed) h,
  map_winning_outcome_id-WinsAtGamma parsed m x (mapped _ (ground (arith, h))),
)
  where
    r : Result ℕ
    r = map_winning_outcome_id parsed.outcome_prices_raw parsed.outcomes_raw m.outcomes

    status :
        (st : MarketStatus)
        → (if is_resolved st then ok (winner_or_none r) else ok none) ≡ ok (some x)
        → st ≡ resolved
    status resolved k = refl
    status _ k = absurd (cc k)

    mapped : (q : Result ℕ) → winner_or_none q ≡ some x → q ≡ ok x
    mapped (ok y) k = cc k
    mapped (err e) k = absurd (cc k)

-- A resolution is reported only of a mirrored market that Gamma answers for with a status that
-- counts as resolved, and its winner is the outcome of the market whose label is the first 50
-- characters of the label at the first price of 1.
pub detect_resolution_correct :
    (fetch : String → Answer) (market_id : ℕ) (s : Db) (x : ℕ)
    → detect_resolution fetch market_id s ≡ ok (some x)
    → (m : Market) × (market? market_id s.markets ≡ some m)
      × (source_id : String) × (m.source_market_id ≡ some source_id)
      × (parsed : GammaMarket) × (fetch source_id ≡ market parsed)
      × (internal_status parsed ≡ resolved)
      × WinsAtGamma parsed m x
unfolding detect_resolution
detect_resolution_correct fetch market_id s x h = on_market (market? market_id s.markets) h
  where
    on_source :
        (m : Market) (src : Option String)
        → detect_source fetch m src ≡ ok (some x)
        → (source_id : String) × (src ≡ some source_id)
          × (parsed : GammaMarket) × (fetch source_id ≡ market parsed)
          × (internal_status parsed ≡ resolved)
          × WinsAtGamma parsed m x
    on_source m none k = absurd (cc k)
    on_source m (some source_id) k =
        let (parsed, e, st, wins) = resolution_of-some m (fetch source_id) x k in
        (source_id, refl, parsed, e, st, wins)

    on_market :
        (r : Option Market)
        → detect_market fetch r ≡ ok (some x)
        → (m : Market) × (r ≡ some m)
          × (source_id : String) × (m.source_market_id ≡ some source_id)
          × (parsed : GammaMarket) × (fetch source_id ≡ market parsed)
          × (internal_status parsed ≡ resolved)
          × WinsAtGamma parsed m x
    on_market none k = absurd (cc k)
    on_market (some m) k =
        let (source_id, src, parsed, e, st, wins) = on_source m m.source_market_id k in
        (m, refl, source_id, src, parsed, e, st, wins)
