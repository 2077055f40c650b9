-- ===== src/Scheduler/Shard/Waiting.antt =====
-- pkg/credential/scheduler/scheduler.go: the slice of the entries that wait for their block to end.
use caddy_agent_gateway.Base.{
  String, ◌≡◌, ◌↔◌, sym, ap, ◌∙◌, inl, inr, true, false, List, [], ◌∷◌, keys, sort_by,
  sort_by-Member, Bool-cases, Member, here, there, Member-uncons,
}
use caddy_agent_gateway.Scheduler.Shard.{ScheduledCred, is_waiting, waiting, waits_before}

-- An entry of `id` that cools down or is blocked.
abbrev pub IsWaiting : List (String × ScheduledCred) → String → Type 0
IsWaiting entries id = (e : ScheduledCred) × Member (id, e) entries × (is_waiting e ≡ true)

IsWaiting-cons :
    (x : String × ScheduledCred) (es : List (String × ScheduledCred)) (id : String)
    → IsWaiting es id
    → IsWaiting (x ∷ es) id
IsWaiting-cons x es id w = let (e, m, h) = w in (e, there m, h)

abbrev Lists : List (String × ScheduledCred) → String → Type 0
Lists es id = (e : ScheduledCred) × Member (id, e) es

waiting-Lists :
    (es : List (String × ScheduledCred)) (id : String) → Lists (waiting es) id ↔ IsWaiting es id
unfolding waiting
waiting-Lists [] id = (λ s. let (e, m) = s in elim m [ ], λ s. let (e, m, h) = s in elim m [ ])
waiting-Lists ((i, x) ∷ es) id =
    let ih = waiting-Lists es id in
    elim (Bool-cases (is_waiting x)) [
      | inr idle ↦ rw idle (
        λ s. IsWaiting-cons (i, x) es id (ih.0 s),
        λ s.
            let (e, m, h) = s in
            elim (Member-uncons m) [
              | inl same ↦
                  let ee : e ≡ x = ap (λ q. q.1) same in
                  let h' : is_waiting x ≡ true = rw (← ee) h in
                  let clash : true ≡ false = sym h' ∙ idle in absurd cc
              | inr m' ↦ ih.1 (e, m', h)
            ],
      )
      | inl waits ↦ rw waits (
        λ s.
            let (e, m) = s in
            elim (Member-uncons m) [
              | inl same ↦
                  let ee : e ≡ x = ap (λ q. q.1) same in
                  let ei : id ≡ i = ap (λ q. q.0) same in (x, rw ei here, waits)
              | inr m' ↦ IsWaiting-cons (i, x) es id (ih.0 (e, m'))
            ],
        λ s.
            let (e, m, h) = s in
            elim (Member-uncons m) [
              | inl same ↦ let ei : id ≡ i = ap (λ q. q.0) same in (x, rw ei here)
              | inr m' ↦ let (e', m'') = ih.1 (e, m', h) in (e', there m'')
            ],
      )
    ]

keys-Lists : (es : List (String × ScheduledCred)) (id : String) → Member id (keys es) ↔ Lists es id
keys-Lists [] id = (λ m. elim m [ ], λ s. elim (s.1) [ ])
keys-Lists ((i, x) ∷ es) id =
    let ih = keys-Lists es id in
    (
      λ m. elim (Member-uncons m) [
        | inl same ↦ (x, rw same here)
        | inr m' ↦ let (e, m'') = ih.0 m' in (e, there m'')
      ],
      λ s.
          let (e, m) = s in
          elim (Member-uncons m) [
            | inl same ↦ let ei : id ≡ i = ap (λ q. q.0) same in rw ei here
            | inr m' ↦ there (ih.1 (e, m'))
          ],
    )

-- The ids in the order of their retries are those of the entries that wait.
pub waiting-ids :
    (es : List (String × ScheduledCred)) (id : String)
    → Member id (keys (sort_by waits_before (waiting es))) ↔ IsWaiting es id
waiting-ids es id =
    let listed = keys-Lists (sort_by waits_before (waiting es)) id in
    let same = waiting-Lists es id in
    (
      λ m.
          let (e, m') = listed.0 m in
          same.0 (e, (sort_by-Member waits_before {a = (id, e)} (waiting es)).0 m'),
      λ w.
          let (e, m) = same.1 w in
          listed.1 (e, (sort_by-Member waits_before {a = (id, e)} (waiting es)).1 m),
    )
