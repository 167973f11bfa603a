-- ===== src/Polymarket/Gamma.antt =====
-- backend/app/integrations/polymarket/schemas.py: what Gamma says of a market and of an event, after
-- parsing, and the status and the category that XPredict derives from it.
use text.Mathlib.TextEquality.{path_by_compare}
use Prim.Native.Nat.{Ordering}
use Prim.Native.String.{compare}
use xpredict.Prelude.{
  ℕ, ◌≡◌, refl, sym, ap, ◌∙◌, Bool, true, false, ◌&&◌, ◌||◌, not, String, Option, none, some, List,
  [], ◌∷◌, text_eq, if◌then◌else◌, ◌⊎◌, inl, inr, ◌↔◌, arith, Bool-cases,
}
use xpredict.Database.Rows.{MarketStatus, open_status, closed_status, resolved}

-- `GammaMarket`, and the label that its subclass `GammaEventMarket` adds. `end_date` is what
-- `datetime.fromisoformat` makes of `end_date_raw`, `none` when that is missing or not a date.
pub record GammaMarket : Type 0 where
  pub id : String
  pub question : String
  pub slug : String
  pub condition_id : String
  pub outcomes_raw : List String
  pub outcome_prices_raw : List String
  pub volume : ℕ
  pub volume_24hr : ℕ
  pub closed : Bool
  pub uma_resolution_status : Option String
  pub end_date : Option ℕ
  pub description : String
  pub group_item_title : Option String

-- `GammaEvent`; of its tags only the ids are read.
pub record GammaEvent : Type 0 where
  pub id : String
  pub title : String
  pub volume_24hr : ℕ
  pub markets : List GammaMarket
  pub tag_ids : List String

-- `CategoryEntry` of backend/app/core/config.py
pub record CategoryEntry : Type 0 where
  pub tag_id : String
  pub name : String

abbrev pub uma_is : String → Option String → Bool
uma_is text none = false
uma_is text (some status) = text_eq status text

abbrev pub no_uma : Option String → Bool
no_uma none = true
no_uma (some status) = false

-- `item in (…)`, on texts
abbrev pub is_in : String → List String → Bool
is_in x [] = false
is_in x (y ∷ ys) = text_eq x y || is_in x ys

abbrev pub winner_prices : List String
winner_prices = "0" ∷ "1" ∷ "0.0" ∷ "1.0" ∷ []

abbrev pub has_winner : List String → Bool
has_winner [] = false
has_winner (p ∷ prices) = is_in p winner_prices || has_winner prices

-- `_derive_status`
unfoldable pub derive_status : Bool → Option String → List String → MarketStatus
derive_status closed uma prices =
    if not closed && no_uma uma
    then open_status
    else if not closed && uma_is "proposed" uma
    then open_status
    else if not closed && uma_is "disputed" uma
    then open_status
    else if not closed && uma_is "resolved" uma
    then resolved
    else if closed && uma_is "resolved" uma
    then (if has_winner prices then resolved else closed_status)
    else if closed && (uma_is "proposed" uma || uma_is "disputed" uma || no_uma uma)
    then closed_status
    else open_status

-- `internal_status`, which the model's validator sets
abbrev pub internal_status : GammaMarket → MarketStatus
internal_status m = derive_status m.closed m.uma_resolution_status m.outcome_prices_raw

-- `resolve_category`
unfoldable pub resolve_category : GammaEvent → List CategoryEntry → Option String
resolve_category event [] = none
resolve_category event (entry ∷ allow_list) =
    if is_in entry.tag_id event.tag_ids then some entry.name else resolve_category event allow_list

pub text_eq-path : (s t : String) → text_eq s t ≡ true → s ≡ t
text_eq-path s t h = path_by_compare s t (go (compare s t) h)
  where
    go : (o : Ordering) → elim o [ Ordering.eq ↦ true | _ ↦ false ] ≡ true → o ≡ Ordering.eq
    go Ordering.lt k = absurd (cc k)
    go Ordering.eq k = refl
    go Ordering.gt k = absurd (cc k)

derive_status_resolves :
    (closed : Bool) (prices : List String)
    → derive_status closed (some "resolved") prices ≡ resolved
    → (closed ≡ false) ⊎ (has_winner prices ≡ true)
unfolding derive_status
derive_status_resolves false prices h = inl refl
derive_status_resolves true prices h = inr (ground (arith, h))

resolves-derive_status :
    (closed : Bool) (prices : List String)
    → (closed ≡ false) ⊎ (has_winner prices ≡ true)
    → derive_status closed (some "resolved") prices ≡ resolved
unfolding derive_status
resolves-derive_status false prices w = refl
resolves-derive_status true prices (inl e) = absurd (cc e)
resolves-derive_status true prices (inr e) = rw e refl

only_resolved :
    (closed : Bool) (status : String) (prices : List String)
    → text_eq status "resolved" ≡ false
    → ¬ (derive_status closed (some status) prices ≡ resolved)
unfolding derive_status
only_resolved closed status prices other h = ground (arith, other, h)

no_status : (closed : Bool) (prices : List String) → ¬ (derive_status closed none prices ≡ resolved)
unfolding derive_status
no_status true prices h = cc h
no_status false prices h = cc h

-- A market counts as resolved exactly when the UMA status is "resolved" and the market is still
-- open for trading at Gamma or some outcome has a price of 0 or 1: a status "proposed" or
-- "disputed", which is not final, never does.
pub derive_status_correct :
    (closed : Bool) (uma : Option String) (prices : List String)
    → (derive_status closed uma prices ≡ resolved)
      ↔ ((uma ≡ some "resolved") × ((closed ≡ false) ⊎ (has_winner prices ≡ true)))
derive_status_correct closed none prices =
    ((λ h. absurd (no_status closed prices h)), (λ (e, w). absurd (cc e)))
derive_status_correct closed (some status) prices = (
  (λ h. elim (Bool-cases (text_eq status "resolved")) [
    | inl e ↦
        let same = text_eq-path status "resolved" e in
        let h' = ap (λ x. derive_status closed (some x) prices) (sym same) ∙ h in
        (ap some same, derive_status_resolves closed prices h')
    | inr ne ↦ absurd (only_resolved closed status prices ne h)
  ]),
  (λ (e, w).
      ap (λ uma. derive_status closed uma prices) e ∙ resolves-derive_status closed prices w),
)
