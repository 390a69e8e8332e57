-- ===== src/Health/Report.antt =====
-- What a report says.
use trading_strands.Prelude.{
  ℕ, suc, ◌+◌, ◌≡◌, ◌↔◌, ◌⊎◌, refl, sym, ◌∙◌, ap, Bool, true, false, false≢true, not, ◌||◌, ◌&&◌,
  List, [], ◌∷◌, All, arith, contains, eqb, length, if◌then◌else◌, Bool-cases, inl, inr,
}
use trading_strands.Prelude.Int.{ℤ, pos, ◌-ℤ◌, ◌<ℤ◌, leb_ℤ}
use trading_strands.Health.{
  Heartbeat, HeartbeatTable, AgentHealthStatus, AgentHealth, healthy, stale, missing, untracked,
  is_ok, classify_beat, fast_cadence_agent_types, classify, classify_all, agent_lt, insert_agent,
  sort_agents, same_status, count_status, check_health,
}

-- one more, if the two are the same
abbrev bump : AgentHealthStatus → AgentHealthStatus → ℕ → ℕ
bump x s n = if same_status x s then suc n else n

bump_swap :
    (p q : Bool) (n : ℕ)
    → (if p then suc (if q then suc n else n) else (if q then suc n else n))
      ≡ (if q then suc (if p then suc n else n) else (if p then suc n else n))
bump_swap p q n = ground arith

count_status-insert_agent :
    (s : AgentHealthStatus) (a : AgentHealth) (bs : List AgentHealth)
    → count_status s (insert_agent a bs) ≡ count_status s (a ∷ bs)
unfolding count_status insert_agent
count_status-insert_agent s a [] = refl
count_status-insert_agent s a (b ∷ bs) = elim (Bool-cases (agent_lt b a)) [
  | inl y ↦ rw y (
      ap (bump b.status s) (count_status-insert_agent s a bs)
      ∙ bump_swap (same_status b.status s) (same_status a.status s) (count_status s bs))
  | inr n ↦ rw n refl
]

count_status-sort_agents :
    (s : AgentHealthStatus) (bs : List AgentHealth)
    → count_status s (sort_agents bs) ≡ count_status s bs
unfolding count_status sort_agents
count_status-sort_agents s [] = refl
count_status-sort_agents s (b ∷ bs) =
    count_status-insert_agent s b (sort_agents bs)
    ∙ ap (bump b.status s) (count_status-sort_agents s bs)

length-insert_agent :
    (a : AgentHealth) (bs : List AgentHealth) → length (insert_agent a bs) ≡ suc (length bs)
unfolding insert_agent
length-insert_agent a [] = refl
length-insert_agent a (b ∷ bs) = elim (Bool-cases (agent_lt b a)) [
  | inl y ↦ rw y (ap suc (length-insert_agent a bs))
  | inr n ↦ rw n refl
]

length-sort_agents : (bs : List AgentHealth) → length (sort_agents bs) ≡ length bs
unfolding sort_agents
length-sort_agents [] = refl
length-sort_agents (b ∷ bs) =
    length-insert_agent b (sort_agents bs) ∙ ap suc (length-sort_agents bs)

length-classify_all :
    (now s m : ℤ) (bs : List Heartbeat) → length (classify_all now s m bs) ≡ length bs
unfolding classify_all
length-classify_all now s m [] = refl
length-classify_all now s m (b ∷ bs) = ap suc (length-classify_all now s m bs)

bump_one :
    (x : AgentHealthStatus) (h s m u : ℕ)
    → suc (h + s + m + u)
      ≡ bump x healthy h + bump x stale s + bump x missing m + bump x untracked u
bump_one healthy h s m u = omega arith
bump_one stale h s m u = omega arith
bump_one missing h s m u = omega arith
bump_one untracked h s m u = omega arith

count_status-total :
    (bs : List AgentHealth)
    → length bs
      ≡ count_status healthy bs
        + count_status stale bs
        + count_status missing bs
        + count_status untracked bs
unfolding count_status
count_status-total [] = omega arith
count_status-total (b ∷ bs) =
    ap suc (count_status-total bs)
    ∙ bump_one b.status (count_status healthy bs) (count_status stale bs) (count_status missing bs)
        (count_status untracked bs)

-- A report counts every agent that has ever beaten once: the healthy, the stale, the missing and
-- those that are not tracked.
check_health_total :
    (now : ℤ) (t : HeartbeatTable) (stale_after missing_after : ℤ)
    → let r = check_health now t stale_after missing_after in
      (r.total ≡ length t)
      × (r.total ≡ r.healthy + r.stale + r.missing + count_status untracked r.agents)
unfolding check_health
check_health_total now t s m = (
  length-sort_agents (classify_all now s m t) ∙ length-classify_all now s m t,
  count_status-total (sort_agents (classify_all now s m t)),
)

-- An agent that raises no alarm: one that beats slowly by its type, or whose last beat is younger than
-- both thresholds.
abbrev pub IsQuiet : ℤ → ℤ → ℤ → Heartbeat → Type 0
IsQuiet now s m b =
    (contains fast_cadence_agent_types b.agent_type ≡ false)
    ⊎ ((pos 0 <ℤ b.last_beat_ts) × (now -ℤ b.last_beat_ts <ℤ s) × (now -ℤ b.last_beat_ts <ℤ m))

-- what a status adds to the alarms
abbrev alarms : AgentHealthStatus → Bool
alarms stale = true
alarms missing = true
alarms _ = false

classify_beat-alarms :
    (now ts s m : ℤ)
    → alarms (classify_beat now ts s m)
      ≡ (leb_ℤ ts (pos 0) || (leb_ℤ m (now -ℤ ts) || leb_ℤ s (now -ℤ ts)))
unfolding classify_beat
classify_beat-alarms now ts s m = elim (Bool-cases (leb_ℤ ts (pos 0))) [
  | inl y ↦ rw y refl
  | inr n ↦ elim (Bool-cases (leb_ℤ m (now -ℤ ts))) [
    | inl y ↦ rw (n, y) refl
    | inr k ↦ elim (Bool-cases (leb_ℤ s (now -ℤ ts))) [
      | inl y ↦ rw (n, k, y) refl
      | inr l ↦ rw (n, k, l) refl
    ]
  ]
]

leb_ℤ→lt : (a b : ℤ) → leb_ℤ a b ≡ false → b <ℤ a
leb_ℤ→lt a b h = ground arith

lt→leb_ℤ : (a b : ℤ) → b <ℤ a → leb_ℤ a b ≡ false
lt→leb_ℤ a b h = ground arith

or-parts : (p q r : Bool) → (p || (q || r)) ≡ false → (p ≡ false) × (q ≡ false) × (r ≡ false)
or-parts p q r h = (ground arith, ground arith, ground arith)

and-parts : (p q : Bool) → (not p && q) ≡ true → (p ≡ false) × (q ≡ true)
and-parts p q h = (ground arith, ground arith)

classify-fast :
    (now s m : ℤ) (b : Heartbeat)
    → contains fast_cadence_agent_types b.agent_type ≡ true
    → (classify now s m b).status ≡ classify_beat now b.last_beat_ts s m
unfolding classify
classify-fast now s m b y = rw y refl

classify-slow :
    (now s m : ℤ) (b : Heartbeat)
    → contains fast_cadence_agent_types b.agent_type ≡ false
    → (classify now s m b).status ≡ untracked
unfolding classify
classify-slow now s m b y = rw y refl

classify-IsQuiet :
    (now s m : ℤ) (b : Heartbeat) → (alarms (classify now s m b).status ≡ false) ↔ IsQuiet now s m b
classify-IsQuiet now s m b = elim (Bool-cases (contains fast_cadence_agent_types b.agent_type)) [
  | inr n ↦ (λ h. inl n, λ h. ap alarms (classify-slow now s m b n))
  | inl y ↦
      let age = now -ℤ b.last_beat_ts in
      let e = ap alarms (classify-fast now s m b y) ∙ classify_beat-alarms now b.last_beat_ts s m in
      (
        λ h.
            let (x, k, l) = or-parts _ _ _ (sym e ∙ h) in
            inr (leb_ℤ→lt b.last_beat_ts (pos 0) x, leb_ℤ→lt s age l, leb_ℤ→lt m age k),
        λ h. elim h [
          | inl n ↦ absurd (false≢true (sym n ∙ y))
          | inr (x, l, k) ↦
              e ∙ rw (lt→leb_ℤ b.last_beat_ts (pos 0) x, lt→leb_ℤ m age k, lt→leb_ℤ s age l) refl
        ],
      )
]

-- a list without stale or missing agents
quiet : List AgentHealth → Bool
quiet bs = eqb (count_status stale bs) 0 && eqb (count_status missing bs) 0

quiet-cons :
    (b : AgentHealth) (bs : List AgentHealth) → quiet (b ∷ bs) ≡ (not (alarms b.status) && quiet bs)
unfolding quiet count_status
quiet-cons b bs = bumps b.status (count_status stale bs) (count_status missing bs)
  where
    bumps :
        (x : AgentHealthStatus) (n k : ℕ)
        → (eqb (bump x stale n) 0 && eqb (bump x missing k) 0)
          ≡ (not (alarms x) && (eqb n 0 && eqb k 0))
    bumps healthy n k = refl
    bumps stale n k = ground arith
    bumps missing n k = ground arith
    bumps untracked n k = refl

quiet-classify_all :
    (now s m : ℤ) (bs : List Heartbeat)
    → (quiet (classify_all now s m bs) ≡ true) ↔ All (IsQuiet now s m) bs
unfolding classify_all
quiet-classify_all now s m [] = (λ h. tt, λ h. unfold quiet in unfold count_status in refl)
quiet-classify_all now s m (b ∷ bs) =
    let (f, g) = quiet-classify_all now s m bs in
    let (p, q) = classify-IsQuiet now s m b in
    let e = quiet-cons (classify now s m b) (classify_all now s m bs) in
    (
      λ h. let both = and-parts _ _ (sym e ∙ h) in (p both.0, f both.1),
      λ h. e ∙ rw (q h.0, g h.1) refl,
    )

-- A report says that all is well exactly if every agent of the table is of a slow type, or has a last
-- beat of a positive time that is younger than both thresholds.
pub is_ok_iff :
    (now : ℤ) (t : HeartbeatTable) (stale_after missing_after : ℤ)
    → (is_ok (check_health now t stale_after missing_after) ≡ true)
      ↔ All (IsQuiet now stale_after missing_after) t
unfolding is_ok check_health quiet
is_ok_iff now t s m =
    let bs = classify_all now s m t in
    let (f, g) = quiet-classify_all now s m t in
    rw (count_status-sort_agents stale bs, count_status-sort_agents missing bs) (f, g)
