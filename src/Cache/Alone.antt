-- ===== src/Cache/Alone.antt =====
-- While a core works on the cache the other one is stopped.
use security_monitor.Prelude.{
  ◌≤◌, ◌≡◌, Bool, true, false, ◌&&◌, ◌||◌, List, [], ◌∷◌, arith, if◌then◌else◌,
}
use security_monitor.Types.{LlcSync}
use security_monitor.Cache.Rendezvous.{
  Pc, Action, move, Cores, Turn, turn, turns, all_idle, idle, gathering, working, collecting,
  releasing, stopped, start, answer, go, by_first, by_second,
}

abbrev pub leads : Pc → Bool
leads gathering = true
leads working = true
leads collecting = true
leads releasing = true
leads _ = false

-- The leader has not let the others go yet.
abbrev pub keeps : Pc → Bool
keeps gathering = true
keeps working = true
keeps _ = false

abbrev pub is_stopped : Pc → Bool
is_stopped stopped = true
is_stopped _ = false

abbrev pub is_working : Pc → Bool
is_working working = true
is_working _ = false

abbrev pub is_gathering : Pc → Bool
is_gathering gathering = true
is_gathering _ = false

abbrev pub is_collecting : Pc → Bool
is_collecting collecting = true
is_collecting _ = false

-- The shared record against the two cores, `a` and `b`, in either order.
pub record Agreed (s : LlcSync) (a b : Pc) : Type 0 where
  pub one_leads : (leads a && leads b) ≡ false
  pub busy : s.busy ≡ (leads a || leads b)
  pub wait : s.wait ≡ (keeps a || keeps b)
  pub a_gathers : is_gathering a ≡ true → s.waiting ≤ (if is_stopped b then 2 else 1)
  pub b_gathers : is_gathering b ≡ true → s.waiting ≤ (if is_stopped a then 2 else 1)
  pub a_counts : is_gathering a ≡ true → 1 ≤ s.waiting
  pub b_counts : is_gathering b ≡ true → 1 ≤ s.waiting
  pub a_collects : is_collecting a ≡ true → (if is_stopped b then 1 else 2) ≤ s.left
  pub b_collects : is_collecting b ≡ true → (if is_stopped a then 1 else 2) ≤ s.left
  pub a_works : is_working a ≡ true → is_stopped b ≡ true
  pub b_works : is_working b ≡ true → is_stopped a ≡ true

Agreed-swap : {s : LlcSync} {a b : Pc} → Agreed s a b → Agreed s b a
Agreed-swap {s} {a} {b} g = record {
  one_leads = ground (arith, g);
  busy = ground (arith, g);
  wait = ground (arith, g);
  a_gathers = g.b_gathers;
  b_gathers = g.a_gathers;
  a_counts = g.b_counts;
  b_counts = g.a_counts;
  a_collects = g.b_collects;
  b_collects = g.a_collects;
  a_works = g.b_works;
  b_works = g.a_works;
}

move-Agreed :
    (act : Action) (s : LlcSync) (a b : Pc)
    → Agreed s a b
    → Agreed (move act s a).0 (move act s a).1 b
unfolding move
move-Agreed start s idle b g = ground arith
move-Agreed answer s idle b g = ground arith
move-Agreed go s gathering b g = ground arith
move-Agreed go s working b g = ground arith
move-Agreed go s collecting b g = ground arith
move-Agreed go s releasing b g = ground arith
move-Agreed go s stopped b g = ground arith
move-Agreed _ s _ b g = ground arith

abbrev pub AgreedCores : Cores → Type 0
AgreedCores c = Agreed c.sync c.first c.second

turn-Agreed : (t : Turn) (c : Cores) → AgreedCores c → AgreedCores (turn t c)
unfolding turn
turn-Agreed (by_first a) c g = move-Agreed a c.sync c.first c.second g
turn-Agreed (by_second a) c g = Agreed-swap (move-Agreed a c.sync c.second c.first (Agreed-swap g))

pub turns-Agreed : (ts : List Turn) (c : Cores) → AgreedCores c → AgreedCores (turns ts c)
unfolding turns
turns-Agreed [] c g = g
turns-Agreed (t ∷ ts) c g = turns-Agreed ts (turn t c) (turn-Agreed t c g)

pub idle-Agreed : (s : LlcSync) → s.busy ≡ false → s.wait ≡ false → AgreedCores (all_idle s)
idle-Agreed s b w = ground arith

-- However the two cores take their turns, a core that works on the cache finds the other one stopped,
-- and the two never lead at once.
pub turns_alone :
    (ts : List Turn) (s : LlcSync)
    → s.busy ≡ false
    → s.wait ≡ false
    → let c = turns ts (all_idle s) in
      (c.first ≡ working → c.second ≡ stopped)
      × (c.second ≡ working → c.first ≡ stopped)
      × ((leads c.first && leads c.second) ≡ false)
turns_alone ts s b w =
    let g = turns-Agreed ts (all_idle s) (idle-Agreed s b w) in
    (λ h. ground (arith, g), λ h. ground (arith, g), g.one_leads)
