-- ===== src/LiveBets/Guards.antt =====
-- The replay and ownership guards of `LiveBetsBridge`
-- (backend/app/integrations/livebets/service.py).
use xpredict.Prelude.{ℕ, ◌≡◌, refl, true, false, Option, some, [], ◌==◌, arith}
use xpredict.Money.Errors.{ok}
use xpredict.Database.Rows.{Db, LiveBetsBet, LiveStatus}
use xpredict.Session.{pure, raise, gets, lift, begin, on_unique_violation, ◌>>=◌, raise_if}
use xpredict.Bets.{StakeSettings}
use xpredict.LiveBets.{
  VerifiedBet, mirror_result, mirror?, is_live_pending, is_live_settled, in_band, insert_mirror,
  record_placed, settle_once, settle_placed, settle_verified, record_settled,
}

-- A settlement that is sent again answers with the status of the mirror and writes nothing.
pub settle_replayed :
    (v : VerifiedBet) (user bet : ℕ) (s : Db) (mirror : LiveBetsBet)
    → is_live_settled v.status ≡ true
    → mirror? bet s.livebets_bets ≡ some mirror
    → mirror.user_id ≡ user
    → is_live_pending mirror.status ≡ false
    → record_settled (ok v) user bet s
      ≡ (ok (mirror_result mirror.bet_id mirror.status false), record s { locks = [] })
unfolding record_settled settle_verified settle_placed settle_once on_unique_violation begin gets
    lift pure raise raise_if ◌>>=◌
settle_replayed v user bet s mirror final found owned closed =
    let same : (mirror.user_id == user) ≡ true = ground arith in
    rw (final, found, same, closed) refl

-- A placement that is mirrored already is not debited again: the answer says so, and nothing is
-- written.
pub placement_replayed :
    (settings : StakeSettings) (v : VerifiedBet) (user bet : ℕ) (table : Option ℕ) (s : Db)
    (mirror : LiveBetsBet)
    → is_live_pending v.status ≡ true
    → in_band settings v.stake ≡ true
    → mirror? bet s.livebets_bets ≡ some mirror
    → record_placed settings (ok v) user bet table s
      ≡ (ok (mirror_result bet LiveStatus.pending false), record s { locks = [] })
unfolding record_placed insert_mirror begin lift pure raise_if ◌>>=◌
placement_replayed settings v user bet table s mirror waiting within found =
    rw (waiting, within, found) refl
