-- ===== src/Events/House/Edit/Locked.antt =====
-- Once a bet was placed on a child of an event, `update_event` of
-- backend/app/settlement/event_router.py refuses to edit it.
use xpredict.Prelude.{
  ℕ, ◌≡◌, refl, ap, ◌∙◌, true, String, Option, none, some, List, [], ◌∷◌, ◌++◌, ◌==◌, ==_self,
  where_rows, any, any-head, any-tail, any-last, arith, inl, inr, Bool-cases,
}
use xpredict.Prelude.Int.{ℤ}
use xpredict.Money.Errors.{ok, err, http_exception}
use xpredict.Database.Rows.{Db, Market, MarketGroup, Bet}
use xpredict.Session.{gets, raise_if, begin, ◌>>=◌}
use xpredict.Session.Inversion.{always-rel}
use xpredict.Wallet.{same_id}
use xpredict.Settlement.Port.{market?}
use xpredict.Bets.{StakeSettings, place_bet}
use xpredict.Bets.MarketPort.{MarketReadPort}
use xpredict.Bets.Placement.{place_bet_effect}
use xpredict.Bets.MarketsKept.{markets_kept, place_bet-markets}
use xpredict.Events.{group?}
use xpredict.Events.House.Edit.{UpdateEventRequest, event_has_bets, checked_edit, patch_event}

-- The child that a query by primary key finds.
found_child :
    (g : ℕ) (m : Market) (x : ℕ) (ms : List Market)
    → m.group_id ≡ some g
    → market? x ms ≡ some m
    → any (
        where_rows
          (λ (c : Market). c.id == x)
          (where_rows (λ (c : Market). same_id c.group_id g) ms))
      ≡ true
unfolding market?
found_child g m x [] in_group h = absurd (cc h)
found_child g m x (c ∷ ms) in_group h = elim (Bool-cases (c.id == x)) [
  | inl e ↦
      let found : ◌≡◌ {A = Option Market} (some c) (some m) = ground (arith, e, h) in
      let child : same_id c.group_id g ≡ true =
        rw
          (ap (λ (o : Option Market). elim o [ none ↦ none | some k ↦ k.group_id ]) found
            ∙ in_group)
          (==_self g) in
      rw child (any-head (λ (k : Market). k.id == x) c _ e)
  | inr ne ↦
      let rest = found_child g m x ms in_group (ground (arith, ne, h)) in
      elim (Bool-cases (same_id c.group_id g)) [
        | inl child ↦ rw child (any-tail (λ (k : Market). k.id == x) c _ rest)
        | inr other ↦ rw other rest
      ]
]

bet_is_on_child :
    (g : ℕ) (s : Db) (m : Market) (earlier : List Bet) (bet : Bet)
    → market? bet.market_id s.markets ≡ some m
    → m.group_id ≡ some g
    → s.bets ≡ earlier ++ bet ∷ []
    → event_has_bets g s ≡ true
bet_is_on_child g s m earlier bet found in_group last =
    rw last (any-last _ earlier bet (found_child g m bet.market_id s.markets in_group found))

patch_event-locked :
    (slugify : String → String) (g : ℕ) (body : UpdateEventRequest) (s : Db) (group : MarketGroup)
    → group? g s.groups ≡ some group
    → event_has_bets g s ≡ true
    → patch_event slugify g body s ≡ (err (http_exception 423), s)
unfolding patch_event checked_edit begin gets raise_if ◌>>=◌
patch_event-locked slugify g body s group found bets = rw (found, bets) refl

-- Once a bet was placed on a child of an event, the event is not edited: the request is answered
-- with 423 and writes nothing, whatever it asks for.
pub bet_locks_event :
    (port : MarketReadPort) (settings : StakeSettings) (now user o : ℕ) (amount : ℤ) (m : Market)
    (g : ℕ) (group : MarketGroup) (s : Db) (bet : Bet) (u : Db) (slugify : String → String)
    (body : UpdateEventRequest)
    → market? m.id s.markets ≡ some m
    → m.group_id ≡ some g
    → group? g u.groups ≡ some group
    → place_bet port settings now user m.id o amount s ≡ (ok bet, u)
    → patch_event slugify g body u ≡ (err (http_exception 423), u)
bet_locks_event port settings now user o amount m g group s bet u slugify body found in_group there
      bet_placed =
    let kept =
      always-rel {r = markets_kept} (place_bet-markets port settings now user m.id o amount)
        bet_placed in
    let (n, _, p) = place_bet_effect port settings now user m.id o amount s bet u bet_placed in
    let row : market? bet.market_id u.markets ≡ some m =
      (λ i. market? (ap (λ (b : Bet). b.market_id) p.row i) (kept i)) ∙ found in
    patch_event-locked slugify g body u group there
      (bet_is_on_child g u m s.bets bet row in_group p.bets)
