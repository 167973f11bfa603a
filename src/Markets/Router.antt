-- ===== src/Markets/Router.antt =====
-- backend/app/markets/router.py: the endpoints on one market. An exception closes the session, which
-- rolls back what was not committed; the publication of new odds is left out.
pub mod Guards
use xpredict.Prelude.{
  ℕ, ◌≡◌, refl, Bool, true, false, ◌&&◌, not, String, Option, none, some, List, [], ◌∷◌, ltb, leb,
  if◌then◌else◌, text_eq, ap, sym, ◌∙◌, arith, ◌↔◌, ltb, Option-cases, inl, inr, Bool-cases,
}
use xpredict.Money.Errors.{Result, ok, err, http_exception}
use xpredict.Database.Rows.{Db, Market, MarketStatus, open_status, closed_status, resolved}
use xpredict.Session.{
  Action, pure, raise, gets, or_raise, raise_if, begin, commit_or_rollback, ◌>>=◌, ◌>>◌,
}
use xpredict.Session.Inversion.{>>=-runs, >>=-raises}
use xpredict.Wallet.Replay.{begin-raises}
use xpredict.Ledger.{record_audit}
use xpredict.Settlement.Port.{market?}
use xpredict.Bets.MarketPort.{
  MarketView, house_read_adapter, is_open, is_open_status, house_read_adapter-is_open,
  house_read_adapter-found,
}
use xpredict.Markets.{
  MarketUpdate, OddsDelta, is_open_market, is_given, changed_fields, audit_changes, update_market,
  close_market,
}

-- `MarketService.get_market_by_id`, or 404
load_market : ℕ → Action Market
unfolding ◌>>=◌
load_market market_id = do
  found ← gets (λ s. market? market_id s.markets)
  or_raise found (http_exception 404)

-- PATCH /admin/markets/{market_id}
unfoldable pub patch_market : ℕ → ℕ → ℕ → MarketUpdate → Action (Market × List OddsDelta)
unfolding begin load_market update_market ◌>>=◌
patch_market now admin market_id body =
    begin (load_market market_id >>= λ m. update_market now admin m body)

-- POST /admin/markets/{market_id}/close
unfoldable pub post_close : ℕ → ℕ → ℕ → Action Market
unfolding begin load_market close_market ◌>>=◌
post_close now admin market_id = begin (load_market market_id >>= λ m. close_market now admin m)

-- `MarketService.get_market_by_slug`
abbrev pub market_by_slug : String → List Market → Option Market
market_by_slug slug [] = none
market_by_slug slug (m ∷ ms) = if text_eq m.slug slug then some m else market_by_slug slug ms

abbrev is_public : MarketStatus → Bool
is_public open_status = true
is_public closed_status = true
is_public resolved = true
is_public _ = false

abbrev public_or_404 : Option Market → Result Market
public_or_404 none = err (http_exception 404)
public_or_404 (some m) = if is_public m.status then ok m else err (http_exception 404)

-- GET /api/v1/markets/{slug}
unfoldable pub get_market_public : String → Db → Result Market
get_market_public slug s = public_or_404 (market_by_slug slug s.markets)

abbrev eligible : ℕ → Option Market → Result Bool
eligible now none = err (http_exception 404)
eligible now (some m) =
    if not (is_open_market m.status)
    then err (http_exception 400)
    else if leb m.deadline now
    then err (http_exception 400)
    else ok true

-- GET /api/v1/markets/{slug}/bet-check
unfoldable pub bet_check : ℕ → String → Db → Result Bool
bet_check now slug s = eligible now (market_by_slug slug s.markets)

-- The status code of a refused PATCH, if it is refused.
abbrev pub refusal : MarketUpdate → Option Market → Option ℕ
refusal body none = some 404
refusal body (some m) =
    if is_open_market m.status
    then (if ltb 0 m.bet_count && is_given body.resolution_criteria then some 423 else none)
    else some 409
