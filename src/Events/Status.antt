-- ===== src/Events/Status.antt =====
-- `derive_event_status` of backend/app/settlement/event_service.py against its description.
use xpredict.Prelude.{
  ◌≤◌, ◌≡◌, refl, Bool, true, false, ◌&&◌, ◌||◌, not, List, [], ◌∷◌, ltb, ◌==◌, if◌then◌else◌,
  where_rows, any, length, arith,
}
use xpredict.Events.{
  ChildStatus, open_event, partially_resolved, resolved_event, void, is_resolved,
  derive_event_status,
}

module _ (p : ChildStatus → Bool) where
  unfoldable pub some_child : List ChildStatus → Bool
  some_child [] = false
  some_child (c ∷ cs) = p c || some_child cs

  unfoldable pub each_child : List ChildStatus → Bool
  each_child [] = true
  each_child (c ∷ cs) = p c && each_child cs

  some_child-count : (cs : List ChildStatus) → (length (where_rows p cs) == 0) ≡ not (some_child cs)
  unfolding some_child
  some_child-count [] = refl
  some_child-count (c ∷ cs) = ground (arith, some_child-count cs)

  count_le : (cs : List ChildStatus) → length (where_rows p cs) ≤ length cs
  count_le [] = omega arith
  count_le (c ∷ cs) = ground (arith, count_le cs)

  each_child-count :
      (cs : List ChildStatus) → ltb (length (where_rows p cs)) (length cs) ≡ not (each_child cs)
  unfolding each_child
  each_child-count [] = refl
  each_child-count (c ∷ cs) = ground (arith, each_child-count cs, count_le cs)

  where_rows-each : (cs : List ChildStatus) → each_child cs ≡ true → where_rows p cs ≡ cs
  unfolding each_child
  where_rows-each [] h = refl
  where_rows-each (c ∷ cs) h = ground (arith, where_rows-each cs)

  any-some_child : (cs : List ChildStatus) → any (where_rows p cs) ≡ some_child cs
  unfolding some_child
  any-some_child [] = refl
  any-some_child (c ∷ cs) = ground (arith, any-some_child cs)

abbrev pub has_resolved : ChildStatus → Bool
has_resolved c = is_resolved c.status

abbrev pub has_yes_winner : ChildStatus → Bool
has_yes_winner c = c.is_yes_winner

winners :
    (cs : List ChildStatus)
    → each_child has_resolved cs ≡ true
    → any (where_rows has_yes_winner (where_rows has_resolved cs)) ≡ some_child has_yes_winner cs
winners cs h = rw (where_rows-each has_resolved cs h) (any-some_child has_yes_winner cs)

same_status :
    (some_done each_done win win' : Bool)
    → (each_done ≡ true → win ≡ win')
    → (if not some_done
        then open_event
        else if not each_done
        then partially_resolved
        else if win
        then resolved_event
        else void)
      ≡ (if some_done
          then (if each_done then (if win' then resolved_event else void) else partially_resolved)
          else open_event)
same_status false e w w' h = refl
same_status true false w w' h = refl
same_status true true w w' h = rw (h refl) refl

-- The status of an event is "open" when no child is resolved, "partially_resolved" when some
-- child is and some is not, and else "resolved" or "void", as some child resolved on YES or none
-- did. An event without children is open.
pub derive_event_status_correct :
    (cs : List ChildStatus)
    → derive_event_status cs ≡ (
        if some_child has_resolved cs
        then (if each_child has_resolved cs
            then (if some_child has_yes_winner cs then resolved_event else void)
            else partially_resolved)
        else open_event)
unfolding derive_event_status some_child
derive_event_status_correct [] = refl
derive_event_status_correct (c ∷ cs) =
    rw (some_child-count has_resolved (c ∷ cs), each_child-count has_resolved (c ∷ cs))
      (same_status (some_child has_resolved (c ∷ cs)) (each_child has_resolved (c ∷ cs)) _ _
        (winners (c ∷ cs)))
