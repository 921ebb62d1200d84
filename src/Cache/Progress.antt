-- ===== src/Cache/Progress.antt =====
-- A rendezvous can always be finished, but for one case, in which it never is.
use security_monitor.Prelude.{
  ◌+◌, ◌≤◌, ◌≡◌, refl, ◌⊎◌, inl, inr, true, false, List, [], ◌∷◌, arith, ltb, Bool-cases,
}
use security_monitor.Types.{num_cores, LlcSync}
use security_monitor.Cache.Rendezvous.{
  Pc, clean_sync, Cores, Turn, turn, turns, all_idle, idle, gathering, working, collecting,
  releasing, stopped, start, answer, go, by_first, by_second,
}
use security_monitor.Cache.Alone.{leads, Agreed, AgreedCores, turns-Agreed, idle-Agreed}

-- The other core is stopped, but it counted itself in an earlier round.
pub record Stale (c : Cores) : Type 0 where
  pub first_gathers : c.first ≡ gathering
  pub second_stopped : c.second ≡ stopped
  pub uncounted : c.sync.waiting ≡ 1

-- Both cores are out of the rendezvous, and nobody is busy.
pub record Rested (c : Cores) : Type 0 where
  pub first_idle : c.first ≡ idle
  pub second_idle : c.second ≡ idle
  pub not_busy : c.sync.busy ≡ false

abbrev Finishes : Cores → Type 0
Finishes c = (ts : List Turn) × Rested (turns ts c)

finish_collecting :
    (s : LlcSync) (b : Pc)
    → Agreed s collecting b
    → Finishes (record { sync = s; first = collecting; second = b })
unfolding turns
finish_collecting s idle g = (by_first go ∷ by_first go ∷ [], ground (arith, g))
finish_collecting s stopped g = (by_second go ∷ by_first go ∷ by_first go ∷ [], ground (arith, g))
finish_collecting s gathering g = absurd (ground (arith, g))
finish_collecting s working g = absurd (ground (arith, g))
finish_collecting s collecting g = absurd (ground (arith, g))
finish_collecting s releasing g = absurd (ground (arith, g))

finish_releasing :
    (s : LlcSync) (b : Pc)
    → Agreed s releasing b
    → Finishes (record { sync = s; first = releasing; second = b })
unfolding turns
finish_releasing s idle g = (by_first go ∷ [], ground (arith, g))
finish_releasing s stopped g = (by_second go ∷ by_first go ∷ [], ground (arith, g))
finish_releasing s gathering g = absurd (ground (arith, g))
finish_releasing s working g = absurd (ground (arith, g))
finish_releasing s collecting g = absurd (ground (arith, g))
finish_releasing s releasing g = absurd (ground (arith, g))

-- A turn first, and the rest of a schedule.
turn_first : (t : Turn) (c d : Cores) → turn t c ≡ d → Finishes d → Finishes c
unfolding turns
turn_first t c d e f = (t ∷ f.0, rw e f.1)

finish_working :
    (s : LlcSync)
    → Agreed s working stopped
    → Finishes (record { sync = s; first = working; second = stopped })
unfolding turn
finish_working s g =
    turn_first (by_first go) _
      (record { sync = clean_sync s; first = collecting; second = stopped }) refl
      (finish_collecting (clean_sync s) stopped (ground (arith, g)))

finish_gathered :
    (s : LlcSync)
    → Agreed s gathering stopped
    → num_cores ≤ s.waiting
    → Finishes (record { sync = s; first = gathering; second = stopped })
unfolding turn
finish_gathered s g h =
    turn_first (by_first go) _ (record { sync = s; first = working; second = stopped })
      (ground (arith, g)) (finish_working s (ground (arith, g)))

finish_gathering :
    (s : LlcSync)
    → Agreed s gathering idle
    → Finishes (record { sync = s; first = gathering; second = idle })
unfolding turn
finish_gathering s g =
    let u : LlcSync = record s { waiting = s.waiting + 1 } in
    turn_first (by_second answer) _ (record { sync = u; first = gathering; second = stopped })
      (ground (arith, g)) (finish_gathered u (ground (arith, g)) (ground (arith, g)))

finish_from :
    (s : LlcSync) (a b : Pc)
    → Agreed s a b
    → leads a ≡ true
    → let c : Cores = record { sync = s; first = a; second = b } in Stale c ⊎ Finishes c
finish_from s collecting b g h = inr (finish_collecting s b g)
finish_from s releasing b g h = inr (finish_releasing s b g)
finish_from s working stopped g h = inr (finish_working s g)
finish_from s working idle g h = absurd (ground (arith, g))
finish_from s working gathering g h = absurd (ground (arith, g))
finish_from s working working g h = absurd (ground (arith, g))
finish_from s working collecting g h = absurd (ground (arith, g))
finish_from s working releasing g h = absurd (ground (arith, g))
finish_from s gathering idle g h = inr (finish_gathering s g)
finish_from s gathering stopped g h = elim (Bool-cases (ltb s.waiting num_cores)) [
  | inl e ↦
      inl (record { first_gathers = refl; second_stopped = refl; uncounted = ground (arith, g) })
  | inr e ↦ inr (finish_gathered s g (ground arith))
]
finish_from s gathering gathering g h = absurd (ground (arith, g))
finish_from s gathering working g h = absurd (ground (arith, g))
finish_from s gathering collecting g h = absurd (ground (arith, g))
finish_from s gathering releasing g h = absurd (ground (arith, g))
finish_from s idle b g h = cc
finish_from s stopped b g h = cc

-- From every state that the cores reach while the first one leads, some further turns bring both to
-- rest with nobody busy, unless the second one is stopped without having counted itself in this round.
pub turns_finish :
    (ts : List Turn) (s : LlcSync)
    → s.busy ≡ false
    → s.wait ≡ false
    → leads (turns ts (all_idle s)).first ≡ true
    → let c = turns ts (all_idle s) in Stale c ⊎ ((us : List Turn) × Rested (turns us c))
turns_finish ts s b w h =
    let c = turns ts (all_idle s) in
    finish_from c.sync c.first c.second (turns-Agreed ts (all_idle s) (idle-Agreed s b w)) h

Stale-turn : (t : Turn) (c : Cores) → AgreedCores c → Stale c → turn t c ≡ c
unfolding turn
Stale-turn (by_first start) c g s = ground (arith, g, s)
Stale-turn (by_first answer) c g s = ground (arith, g, s)
Stale-turn (by_first go) c g s = ground (arith, g, s)
Stale-turn (by_second start) c g s = ground (arith, g, s)
Stale-turn (by_second answer) c g s = ground (arith, g, s)
Stale-turn (by_second go) c g s = ground (arith, g, s)

Stale-stays : (ts : List Turn) (c : Cores) → AgreedCores c → Stale c → turns ts c ≡ c
unfolding turns
Stale-stays [] c g s = refl
Stale-stays (t ∷ ts) c g s = rw (Stale-turn t c g s) (Stale-stays ts c g s)

-- In the other case no turns ever change anything: both cores wait for good.
pub turns_deadlock :
    (ts us : List Turn) (s : LlcSync)
    → s.busy ≡ false
    → s.wait ≡ false
    → Stale (turns ts (all_idle s))
    → turns us (turns ts (all_idle s)) ≡ turns ts (all_idle s)
turns_deadlock ts us s b w h =
    Stale-stays us (turns ts (all_idle s)) (turns-Agreed ts (all_idle s) (idle-Agreed s b w)) h
