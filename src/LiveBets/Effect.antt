-- ===== src/LiveBets/Effect.antt =====
-- What `LiveBetsBridge.record_settled` (backend/app/integrations/livebets/service.py) has paid when
-- it answers that it was applied.
use mathlib.Core.Path.{subst}
use xpredict.Prelude.{
  ℕ, ◌+◌, ◌-◌, ◌≡◌, refl, ap, sym, ◌∙◌, ⊤, Bool, true, false, ◌||◌, not, Option, some, List, [],
  ◌∷◌, ◌==◌, if◌then◌else◌, arith, inl, inr,
}
use xpredict.Prelude.Int.{ℤ, pos, negsuc, ltb_ℤ, ◌-ℤ◌}
use xpredict.Money.Errors.{Result, ok, verification_error, ownership_error}
use xpredict.Database.Rows.{
  Db, LiveBetsBet, LiveStatus, livebets, house_promo_id, house_revenue_id, livebets_escrow_id,
}
use xpredict.Database.Keys
use xpredict.Database.Tables.{account?, balance_or_zero}
use xpredict.Session.{pure, gets, begin, raise_if, ◌>>◌, sorted_ids, ◌>>=◌}
use xpredict.Session.Inversion.{
  raise_if-then, or_raise-then, lift-then, begin-eq-ok, on_unique_violation-cases, returned,
  >>=-eq-ok,
}
use xpredict.Wallet.{post_transfer}
use xpredict.Wallet.Effects.{locked-then}
use xpredict.Wallet.Posting.{balance, post_transfer-Posted}
use xpredict.Wallet.Flow.{Posted-balance}
use xpredict.Wallet.Queries.{HasWallet, resolve_user_wallet_id-then}
use xpredict.LiveBets.{
  VerifiedBet, MirrorResult, mirror?, mirror_result, is_live_pending, is_live_settled, live_touched,
  write_mirror_status, settle_mirror, settle_once, settle_placed, settle_verified, record_settled,
  LiveSpec, won_specs, live_specs, post_live_specs,
}

-- What the legs take from account `x`, and what they give it.
unfoldable taken : ℕ → List LiveSpec → ℕ
taken x [] = 0
taken x (p ∷ specs) = (if p.debit_id == x then p.amount else 0) + taken x specs

unfoldable given : ℕ → List LiveSpec → ℕ
given x [] = 0
given x (p ∷ specs) = (if p.credit_id == x then p.amount else 0) + given x specs

post_live_specs-flow :
    (user bet : ℕ) (specs : List LiveSpec) (s : Db) (a : ⊤) (u : Db)
    → post_live_specs user bet specs s ≡ (ok a, u)
    → (x : ℕ) → balance x u + taken x specs ≡ balance x s + given x specs
unfolding post_live_specs taken given pure
post_live_specs-flow user bet [] s a u h x =
    ap (λ (v : Db). balance_or_zero (account? x v.accounts) + 0) (returned h).1
post_live_specs-flow user bet (p ∷ specs) s a u h x =
    let (t, v, h1, h2) =
      >>=-eq-ok
        (post_transfer p.kind (some (Keys.livebets bet p.stage)) (some user) p.debit_id p.credit_id
          p.amount (livebets bet))
        (λ _. post_live_specs user bet specs) s h in
    let posted =
      post_transfer-Posted p.kind (some (Keys.livebets bet p.stage)) (some user) p.debit_id
        p.credit_id p.amount (livebets bet) s t v h1 in
    omega (arith, Posted-balance posted x, post_live_specs-flow user bet specs v a u h2 x)

-- Who gets the stake, and with what gain over it: a winner's wallet gets the verified payout, a
-- refunded or voided bet's wallet the stake, and the house's revenue the stake of a lost bet.
abbrev pub IsDue : LiveStatus → ℕ → ℕ → Option ℤ → Db → ℕ → ℕ → Type 0
IsDue LiveStatus.won user stake payout s to gain =
    (payout ≡ some (pos (stake + gain))) × HasWallet user s to
IsDue LiveStatus.refunded user stake payout s to gain = (gain ≡ 0) × HasWallet user s to
IsDue LiveStatus.voided user stake payout s to gain = (gain ≡ 0) × HasWallet user s to
IsDue _ user stake payout s to gain = (gain ≡ 0) × (to ≡ house_revenue_id)

record LiveLegs (status : LiveStatus) (user stake : ℕ) (payout : Option ℤ) (s : Db)
    (specs : List LiveSpec) : Type 0 where
  to : ℕ
  gain : ℕ
  due : IsDue status user stake payout s to gain
  out :
      (x : ℕ)
      → taken x specs
        ≡ (if livebets_escrow_id == x then stake else 0) + (if house_promo_id == x then gain else 0)
  into : (x : ℕ) → given x specs ≡ (if to == x then stake + gain else 0)

nonnegative :
    (p : ℤ) (stake : ℕ)
    → ltb_ℤ (p -ℤ pos stake) (pos 0) ≡ false
    → (gain : ℕ) × (p ≡ pos (stake + gain)) × (p -ℤ pos stake ≡ pos gain)
unfolding ◌-ℤ◌
nonnegative (pos n) stake h = (n - stake, ground arith, ground arith)
nonnegative (negsuc n) stake h = absurd (ground arith)

won_specs-LiveLegs :
    (user stake to gain : ℕ) (payout : Option ℤ) (s : Db)
    → IsDue LiveStatus.won user stake payout s to gain
    → LiveLegs LiveStatus.won user stake payout s (won_specs to stake (pos gain))
unfolding taken given
won_specs-LiveLegs user stake to gain payout s due = record {
  to = to;
  gain = gain;
  due = due;
  out = λ x. ground arith;
  into = λ x. ground arith;
}

live_specs-LiveLegs :
    (status : LiveStatus) (user stake : ℕ) (payout : Option ℤ) (s : Db) {specs : List LiveSpec}
    {t : Db}
    → live_specs status user stake payout s ≡ (ok specs, t)
    → (t ≡ s) × LiveLegs status user stake payout s specs
unfolding live_specs taken given pure
live_specs-LiveLegs LiveStatus.won user stake payout s {specs} {t} h =
    let (w, has, h1) = resolve_user_wallet_id-then {s = s} user _ h in
    let (p, known, h2) = or_raise-then {s = s} payout verification_error _ h1 in
    let (enough, h3) =
      raise_if-then {s = s} (ltb_ℤ (p -ℤ pos stake) (pos 0)) verification_error _ h2 in
    let (gain, e, e') = nonnegative p stake enough in
    let (same_specs, same) = returned h3 in
    (
      same,
      subst (LiveLegs LiveStatus.won user stake payout s)
          (ap (won_specs w stake) (sym e') ∙ sym same_specs)
          (won_specs-LiveLegs user stake w gain payout s (known ∙ ap some e, has)),
    )
live_specs-LiveLegs LiveStatus.refunded user stake payout s h =
    let (w, has, h1) = resolve_user_wallet_id-then {s = s} user _ h in
    let (same_specs, same) = returned h1 in
    (
      same,
      rw same_specs (record {
        to = w;
        gain = 0;
        due = (refl, has);
        out = λ x. ground arith;
        into = λ x. ground arith;
      }),
    )
live_specs-LiveLegs LiveStatus.voided user stake payout s h =
    let (w, has, h1) = resolve_user_wallet_id-then {s = s} user _ h in
    let (same_specs, same) = returned h1 in
    (
      same,
      rw same_specs (record {
        to = w;
        gain = 0;
        due = (refl, has);
        out = λ x. ground arith;
        into = λ x. ground arith;
      }),
    )
live_specs-LiveLegs _ user stake payout s h =
    let (same_specs, same) = returned h in
    (
      same,
      rw same_specs (record {
        to = house_revenue_id;
        gain = 0;
        due = (refl, refl);
        out = λ x. ground arith;
        into = λ x. ground arith;
      }),
    )

-- The stake is the mirrored one; the escrow gives it up, and the payee gets it with the gain, which
-- `house_promo` pays.
pub record Paid (user : ℕ) (mirror : LiveBetsBet) (v : VerifiedBet) (s u : Db) : Type 0 where
  pub same_stake : v.stake ≡ pos mirror.stake
  pub to : ℕ
  pub gain : ℕ
  pub due : IsDue v.status user mirror.stake v.payout s to gain
  pub balances :
      (x : ℕ)
      → balance x u
          + (if livebets_escrow_id == x then mirror.stake else 0)
          + (if house_promo_id == x then gain else 0)
        ≡ balance x s + (if to == x then mirror.stake + gain else 0)

stake_lem : (z : ℤ) (n : ℕ) → (ltb_ℤ z (pos n) || ltb_ℤ (pos n) z) ≡ false → z ≡ pos n
stake_lem (pos k) n h = ground arith
stake_lem (negsuc k) n h = absurd (ground arith)

settle_mirror-Paid :
    (user : ℕ) (mirror : LiveBetsBet) (v : VerifiedBet) (s : Db) {r : MirrorResult} {u : Db}
    → settle_mirror user mirror v s ≡ (ok r, u)
    → Paid user mirror v s u
unfolding settle_mirror write_mirror_status pure ◌>>=◌
settle_mirror-Paid user mirror v s {r} {u} h =
    let (agree, h1) =
      raise_if-then {s = s} (ltb_ℤ v.stake (pos mirror.stake) || ltb_ℤ (pos mirror.stake) v.stake)
        verification_error _ h in
    let (specs, t1, h2, h3) = >>=-eq-ok (live_specs v.status user mirror.stake v.payout) _ s h1 in
    let (e1, legs) = live_specs-LiveLegs v.status user mirror.stake v.payout s h2 in
    let (_, t2, q, _, h4) = locked-then {s = t1} (sorted_ids (live_touched specs)) _ h3 in
    let (a, t3, h5, h6) = >>=-eq-ok (post_live_specs user mirror.bet_id specs) _ t2 h4 in
    let flow = post_live_specs-flow user mirror.bet_id specs t2 a t3 h5 in
    let same : u.accounts ≡ t3.accounts = ap (λ (z : Db). z.accounts) (returned h6).1 in
    let kept : t2.accounts ≡ s.accounts = q.accounts ∙ ap (λ (z : Db). z.accounts) e1 in
    record {
      same_stake = stake_lem v.stake mirror.stake agree;
      to = legs.to;
      gain = legs.gain;
      due = legs.due;
      balances = λ x. omega (
        arith,
        flow x,
        legs.out x,
        legs.into x,
        ap (λ rows. balance_or_zero (account? x rows)) kept,
        ap (λ rows. balance_or_zero (account? x rows)) same,
      );
    }

not_applied :
    (r : MirrorResult) (x : ℕ) (st : LiveStatus)
    → r.applied ≡ true
    → r ≡ mirror_result x st false
    → ⊥
not_applied r x st h e = cc (sym h ∙ ap (λ (z : MirrorResult). z.applied) e)

settle_once-Paid :
    (user : ℕ) (mirror : LiveBetsBet) (v : VerifiedBet) (s : Db) (r : MirrorResult) (u : Db)
    → r.applied ≡ true
    → settle_once user mirror v s ≡ (ok r, u)
    → (is_live_pending mirror.status ≡ true) × Paid user mirror v s u
unfolding settle_once pure
settle_once-Paid user mirror v s r u applied h = go (is_live_pending mirror.status) refl h
  where
    go :
        (c : Bool)
        → is_live_pending mirror.status ≡ c
        → (if c
              then settle_mirror user mirror v
              else pure (mirror_result mirror.bet_id mirror.status false))
            s
          ≡ (ok r, u)
        → (is_live_pending mirror.status ≡ true) × Paid user mirror v s u
    go true e k = (e, settle_mirror-Paid user mirror v s k)
    go false e k = absurd (not_applied r mirror.bet_id mirror.status applied (returned k).0)

IsDue-begin :
    (st : LiveStatus) (user stake : ℕ) (payout : Option ℤ) (s : Db) (to gain : ℕ)
    → IsDue st user stake payout (record s { locks = [] }) to gain
    → IsDue st user stake payout s to gain
IsDue-begin LiveStatus.won user stake payout s to gain d = d
IsDue-begin LiveStatus.refunded user stake payout s to gain d = d
IsDue-begin LiveStatus.voided user stake payout s to gain d = d
IsDue-begin _ user stake payout s to gain d = d

-- The mirror that a settlement was for.
pub record LiveSettled (user bet : ℕ) (v : VerifiedBet) (s u : Db) : Type 0 where
  pub mirror : LiveBetsBet
  pub found : mirror? bet s.livebets_bets ≡ some mirror
  pub owned : mirror.user_id ≡ user
  pub was_pending : is_live_pending mirror.status ≡ true
  pub paid : Paid user mirror v s u

settle_placed-LiveSettled :
    (user bet : ℕ) (v : VerifiedBet) (s : Db) (r : MirrorResult) (u : Db)
    → r.applied ≡ true
    → begin (settle_placed user bet v) s ≡ (ok r, u)
    → LiveSettled user bet v s u
unfolding settle_placed gets ◌>>=◌
settle_placed-LiveSettled user bet v s r u applied h =
    let s0 : Db = record s { locks = [] } in
    let h1 = begin-eq-ok (settle_placed user bet v) s h in
    let (mirror, found, h2) =
      or_raise-then {s = s0} (mirror? bet s.livebets_bets) verification_error
        (λ m. raise_if (not (m.user_id == user)) ownership_error >> settle_once user m v) h1 in
    let (mine, h3) = raise_if-then {s = s0} (not (mirror.user_id == user)) ownership_error _ h2 in
    let (waiting, p) = settle_once-Paid user mirror v s0 r u applied h3 in
    record {
      mirror = mirror;
      found = found;
      owned = ground arith;
      was_pending = waiting;
      paid = record {
        same_stake = p.same_stake;
        to = p.to;
        gain = p.gain;
        due = IsDue-begin v.status user mirror.stake v.payout s p.to p.gain p.due;
        balances = p.balances;
      };
    }

settle_verified-LiveSettled :
    (user bet : ℕ) (v : VerifiedBet) (s : Db) (r : MirrorResult) (u : Db)
    → r.applied ≡ true
    → settle_verified user bet v s ≡ (ok r, u)
    → LiveSettled user bet v s u
unfolding settle_verified pure
settle_verified-LiveSettled user bet v s r u applied h =
    elim (on_unique_violation-cases (begin (settle_placed user bet v))
      (pure (mirror_result bet v.status false)) s h) [
        | inl k ↦ settle_placed-LiveSettled user bet v s r u applied k
        | inr (t, raised, k) ↦ absurd (not_applied r bet v.status applied (returned k).0)
      ]

-- A settlement that was applied was of the caller's own pending bet, at the mirrored stake and in a
-- final status. The escrow gave up exactly the stake, and who is due got it: a winner's wallet the
-- verified payout, the wallet of a refunded or voided bet the stake, `house_revenue` a lost stake.
pub record_settled_effect :
    (answer : Result VerifiedBet) (user bet : ℕ) (s : Db) (r : MirrorResult) (u : Db)
    → r.applied ≡ true
    → record_settled answer user bet s ≡ (ok r, u)
    → (v : VerifiedBet) × (answer ≡ ok v)
      × (is_live_settled v.status ≡ true)
      × LiveSettled user bet v s u
unfolding record_settled
record_settled_effect answer user bet s r u applied h =
    let (v, verified, h1) = lift-then {s = s} answer _ h in
    let (final, h2) =
      raise_if-then {s = s} (not (is_live_settled v.status)) verification_error _ h1 in
    (v, verified, ground arith, settle_verified-LiveSettled user bet v s r u applied h2)
