-- ===== src/Runner/Converge/Counting.antt =====
-- The count of events against the events that concern the resource.
use mathlib.Core.Path.{subst}
use crossplane_update_tester.Base.{
  ℕ, suc, ◌+◌, ◌%◌, ◌≤◌, ◌<◌, Text, true, List, [], ◌∷◌, ◌++◌, none, some, is_empty_iff, elem_iff,
  list_eq, nat_eq, ◌==◌, ==_iff, In, nat_beq, nat_beq_iff, ◌≡◌, ◌≢◌, ◌↔◌, ◌⊎◌, ◌∙◌, sym, refl, ap,
  inl, inr, Bool-cases, arith,
}
use crossplane_update_tester.Runner.Converge.{
  EventFilter, EventItem, api_group, before_slash, counts_event, occurrences, sum_events_from,
  sum_event_occurrences_by_reason,
}

-- The group of an apiVersion is what stands before its first slash, and empty where there is none.
abbrev pub IsGroup : Text → Text → Type 0
IsGroup version g =
    ((version_name : Text) × (version ≡ g ++ b'/' ∷ version_name) × (¬ In b'/' g))
    ⊎ ((¬ In b'/' version) × (g ≡ []))

before_slash-none : (s : Text) → ¬ In b'/' s → before_slash s ≡ none
unfolding before_slash
before_slash-none [] h = refl
before_slash-none (c ∷ s) h = ground (
  arith,
  nat_beq_iff c b'/',
  before_slash-none s (λ i. h (inr i)),
  (λ (e : c ≡ b'/'). h (inl (sym e))),
)

before_slash-some : (g rest : Text) → ¬ In b'/' g → before_slash (g ++ b'/' ∷ rest) ≡ some g
unfolding before_slash
before_slash-some [] rest h = refl
before_slash-some (c ∷ g) rest h = elim (Bool-cases (nat_beq c b'/')) [
  | inl t ↦ absurd (h (inl (sym ((nat_beq_iff c b'/').0 t))))
  | inr f ↦ rw (before_slash, f, before_slash-some g rest (λ i. h (inr i))) refl
]

api_group-IsGroup : (version g : Text) → IsGroup version g → api_group version ≡ g
api_group-IsGroup version g (inl (rest, e, free)) =
    rw (api_group, e, before_slash-some g rest free) refl
api_group-IsGroup version g (inr (free, e)) = rw (api_group, before_slash-none version free) (sym e)

-- Either there is a slash, or there is none.
slash_cases :
    (s : Text)
    → ((g : Text) × (rest : Text) × (s ≡ g ++ b'/' ∷ rest) × (¬ In b'/' g)) ⊎ (¬ In b'/' s)
slash_cases [] = inr (λ h. h)
slash_cases (c ∷ s) = elim (Bool-cases (nat_beq c b'/')) [
  | inl t ↦ inl ([], s, ap (λ x. x ∷ s) ((nat_beq_iff c b'/').0 t), (λ h. h))
  | inr f ↦
      let other : b'/' ≢ c = ground (arith, nat_beq_iff c b'/') in
      elim (slash_cases s) [
        | inl (g, rest, e, free) ↦
            inl (c ∷ g, rest, ap (λ x. c ∷ x) e, (λ h. elim h [ inl p ↦ other p | inr i ↦ free i ]))
        | inr free ↦ inr (λ h. elim h [ inl p ↦ other p | inr i ↦ free i ])
      ]
]

IsGroup-api_group : (version : Text) → IsGroup version (api_group version)
IsGroup-api_group version = elim (slash_cases version) [
  | inl (g, rest, e, free) ↦
      subst (IsGroup version) (sym (api_group-IsGroup version g (inl (rest, e, free))))
        (inl (rest, e, free))
  | inr free ↦
      subst (IsGroup version) (sym (api_group-IsGroup version [] (inr (free, refl))))
        (inr (free, refl))
]

-- The two versions are of one group.
abbrev pub HasGroupOf : Text → Text → Type 0
HasGroupOf v w = (g : Text) × IsGroup v g × IsGroup w g

HasGroupOf-api_group : (v w : Text) → ((api_group v == api_group w) ≡ true) ↔ HasGroupOf v w
HasGroupOf-api_group v w = (
  λ h. (
    api_group w,
    subst (IsGroup v) ((==_iff (api_group v) (api_group w)).0 h) (IsGroup-api_group v),
    IsGroup-api_group w,
  ),
  λ (g, p, q).
      (==_iff (api_group v) (api_group w)).1
        (api_group-IsGroup v g p ∙ sym (api_group-IsGroup w g q)),
)

-- An event of the object, of its group unless the event has no version, for one of the reasons.
abbrev pub Concerns : EventFilter → EventItem → Type 0
Concerns f e =
    (e.kind ≡ f.kind)
    × (e.name ≡ f.name)
    × (e.namespace ≡ f.namespace)
    × ((e.api_version ≡ []) ⊎ HasGroupOf e.api_version f.api_version)
    × In e.reason f.reasons

counts_event-Concerns : (f : EventFilter) (e : EventItem) → (counts_event f e ≡ true) ↔ Concerns f e
unfolding counts_event
counts_event-Concerns f e = ground (
  arith,
  ==_iff e.kind f.kind,
  ==_iff e.name f.name,
  ==_iff e.namespace f.namespace,
  is_empty_iff e.api_version,
  HasGroupOf-api_group e.api_version f.api_version,
  elem_iff e.reason f.reasons,
)

-- The occurrences of the events that concern the object. The count of an event is an int32, so that a
-- word from 2 ^ 31 on is a negative count.
pub data Tally (f : EventFilter) : List EventItem → ℕ → Type 0 where
  nothing : Tally f [] 0
  other :
      {e : EventItem} {es : List EventItem} {n : ℕ}
      → ¬ Concerns f e
      → Tally f es n
      → Tally f (e ∷ es) n
  single :
      {e : EventItem} {es : List EventItem} {n : ℕ}
      → Concerns f e
      → (e.count ≡ 0) ⊎ (2147483648 ≤ e.count)
      → Tally f es n
      → Tally f (e ∷ es) (suc n)
  several :
      {e : EventItem} {es : List EventItem} {n : ℕ}
      → Concerns f e
      → 1 ≤ e.count
      → e.count < 2147483648
      → Tally f es n
      → Tally f (e ∷ es) (e.count + n)

sum_events_from-counted :
    (f : EventFilter) (e : EventItem) (es : List EventItem) (total k : ℕ)
    → Concerns f e
    → occurrences e ≡ k
    → total + k < 2147483648
    → sum_events_from f total (e ∷ es) ≡ sum_events_from f (total + k) es
unfolding sum_events_from
sum_events_from-counted f e es total k c o h =
    let same : (total + k) % 4294967296 ≡ total + k = omega arith in
    rw ((counts_event-Concerns f e).1 c, o, same) refl

sum_events_from-Tally :
    (f : EventFilter) (es : List EventItem) (n total : ℕ)
    → Tally f es n
    → total + n < 2147483648
    → sum_events_from f total es ≡ total + n
unfolding sum_events_from
sum_events_from-Tally f es n total nothing h = omega arith
sum_events_from-Tally f (e ∷ es) n total (other c t) h = elim (Bool-cases (counts_event f e)) [
  | inl y ↦ absurd (c ((counts_event-Concerns f e).0 y))
  | inr y ↦ rw y (sum_events_from-Tally f es n total t h)
]
sum_events_from-Tally f (e ∷ es) (suc n) total (single c k t) h =
    sum_events_from-counted f e es total 1 c (ground arith) (omega arith)
    ∙ sum_events_from-Tally f es n (total + 1) t (omega arith)
    ∙ omega arith
sum_events_from-Tally f (e ∷ es) n total (several {n = m} c p l t) h =
    sum_events_from-counted f e es total e.count c (ground arith) (omega arith)
    ∙ sum_events_from-Tally f es m (total + e.count) t (omega arith)
    ∙ omega arith

-- While the occurrences of the events that concern a resource sum to less than 2 ^ 31, the int32 total
-- is that sum: nothing wraps around. An event concerns the resource when its object has the same kind,
-- name and namespace, its reason is one of those asked for, and its apiVersion is empty or of the same
-- group; an event whose count is not positive is one occurrence.
pub sum_event_occurrences_by_reason_lem :
    (f : EventFilter) (es : List EventItem) (n : ℕ)
    → Tally f es n
    → n < 2147483648
    → sum_event_occurrences_by_reason f es ≡ n
sum_event_occurrences_by_reason_lem f es n t h =
    sum_events_from-Tally f es n 0 t (omega (arith, h)) ∙ omega arith
