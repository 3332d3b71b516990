-- ===== src/Network/NetworkCoordinator/Order.antt =====
-- The order in which the thread serves the calls (lib/network/networkcoordinator.cpp).
use chat_up.Base.{
  ℕ, zero, suc, ◌+◌, ◌≤◌, ◌≡◌, refl, sym, ap, Bool, true, false, not, ◌||◌, Option, none, some,
  List, [], ◌∷◌, ◌++◌, append_assoc, String, arith,
}
use chat_up.Network.NetworkCoordinator.{
  slept, NetworkCoordinator, MethodInfo, Priority, authorized_call, direct_call, Effect,
  connect_waited, not_responding, passed_on, Round, waits, stops, undefined, served, server_method,
  take_method, take_direct, take_authorized, is_empty, has_work, reconnect, next_answer, finish,
  thread_round,
}

module _ {J P : Type 0} where
  abbrev pub asked : Priority → String → J → P → MethodInfo J P
  asked k s x y = record { method = s; args = x; prom = y; priority = k }

  work_lem :
      (ds auths : List (MethodInfo J P)) (b : Bool) {info : MethodInfo J P}
      {rest : List (MethodInfo J P)}
      → ds ++ auths ≡ info ∷ rest
      → (not (is_empty ds) || not (is_empty auths) || b) ≡ true
  unfolding is_empty
  work_lem [] [] b e = ground arith
  work_lem [] (i ∷ auths) b e = refl
  work_lem (i ∷ ds) auths b e = refl

module _ {J P H : Type 0} where
  -- The calls that wait, in the order in which they are served.
  abbrev pub waiting : NetworkCoordinator J P H → List (MethodInfo J P)
  waiting c = c.direct_calls ++ c.authorized_calls

  abbrev Takes : List (MethodInfo J P) → Option (MethodInfo J P × NetworkCoordinator J P H) → Type 0
  Takes [] o = o ≡ none
  Takes (info ∷ rest) none = ⊥
  Takes (info ∷ rest) (some (i, c)) = (i ≡ info) × (waiting c ≡ rest)

  take_direct-Takes :
      (ds auths : List (MethodInfo J P)) (c : NetworkCoordinator J P H)
      → c.direct_calls ≡ ds
      → c.authorized_calls ≡ auths
      → Takes (ds ++ auths) (take_direct ds c)
  unfolding take_direct take_authorized
  take_direct-Takes [] [] c d a = rw a refl
  take_direct-Takes [] (i ∷ auths) c d a = rw a (refl, ap (λ q. q ++ auths) d)
  take_direct-Takes (i ∷ ds) auths c d a = (refl, ap (λ q. ds ++ q) a)

  take_method-Takes : (c : NetworkCoordinator J P H) → Takes (waiting c) (take_method c)
  unfolding take_method
  take_method-Takes c = take_direct-Takes c.direct_calls c.authorized_calls c refl refl

  -- Nothing but waits for a connection and sleeps.
  abbrev pub OnlyWaits : List (Effect J P H) → Type 0
  OnlyWaits [] = Unit
  OnlyWaits (connect_waited ∷ fx) = OnlyWaits fx
  OnlyWaits (slept ∷ fx) = OnlyWaits fx
  OnlyWaits (_ ∷ fx) = ¬ Unit

  -- What becomes of a call where isConnected gives that answer.
  abbrev pub outcome : Bool → MethodInfo J P → Effect J P H
  outcome true info = passed_on info
  outcome false info = not_responding info.prom

reconnect-OnlyWaits :
    (J P H : Type 0) (n : ℕ) (answers : List Bool)
    → OnlyWaits (reconnect {J = J} {P = P} {H = H} n answers).0
unfolding reconnect
reconnect-OnlyWaits J P H zero answers = tt
reconnect-OnlyWaits J P H (suc n) [] = reconnect-OnlyWaits J P H n []
reconnect-OnlyWaits J P H (suc n) (true ∷ answers) = tt
reconnect-OnlyWaits J P H (suc n) (false ∷ []) = reconnect-OnlyWaits J P H n []
reconnect-OnlyWaits J P H (suc n) (false ∷ true ∷ answers) = reconnect-OnlyWaits J P H n answers
reconnect-OnlyWaits J P H (suc n) (false ∷ false ∷ answers) = reconnect-OnlyWaits J P H n answers

module _ {J P H : Type 0} where
  finish-Served :
      (b : Bool) (fx : List (Effect J P H)) (o : Option (MethodInfo J P × NetworkCoordinator J P H))
      (info : MethodInfo J P) (rest : List (MethodInfo J P))
      → Takes (info ∷ rest) o
      → (d : NetworkCoordinator J P H) × (finish b fx o ≡ served d (fx ++ outcome b info ∷ []))
        × (waiting d ≡ rest)
  unfolding finish
  finish-Served true fx none info rest a = elim a [ ]
  finish-Served false fx none info rest a = elim a [ ]
  finish-Served true fx (some (i, d)) info rest (e, w) =
      (d, ap (λ k. served d (fx ++ passed_on k ∷ [])) e, w)
  finish-Served false fx (some (i, d)) info rest (e, w) =
      (d, ap (λ k. served d (fx ++ not_responding k.prom ∷ [])) e, w)

  -- While the coordinator is active and a call waits, a round of the thread waits for a connection and
  -- sleeps as reconnect says, and then does one thing more: where isConnected answers yes after that, the
  -- first of the waiting calls, the direct ones before the authorized ones, is passed on to the server
  -- once, and else its promise is told once that the server does not respond. The others wait on in their
  -- order, and the end of `takeMethod` without a return is never reached.
  pub thread_round-serves :
      (c : NetworkCoordinator J P H) (answers : List Bool) (info : MethodInfo J P)
      (rest : List (MethodInfo J P))
      → c.active ≡ true
      → waiting c ≡ info ∷ rest
      → let (pauses, later) = reconnect {J = J} {P = P} {H = H} c.reconnection_count answers in
        (d : NetworkCoordinator J P H) × (thread_round answers c
          ≡ served d (pauses ++ outcome (next_answer later) info ∷ []))
        × (waiting d ≡ rest)
        × OnlyWaits pauses
  unfolding thread_round has_work
  thread_round-serves c answers info rest act w =
      let e = work_lem c.direct_calls c.authorized_calls (not true) w in
      let t : Takes (info ∷ rest) (take_method c) = rw (sym w) (take_method-Takes c) in
      let r = reconnect c.reconnection_count answers in
      let (d, run, left) = finish-Served (next_answer r.1) r.0 (take_method c) info rest t in
      (d, simp (act, e) run, left, reconnect-OnlyWaits J P H c.reconnection_count answers)

  pub waited : Effect J P H → ℕ
  waited connect_waited = 1
  waited _ = 0

  abbrev pub attempts : List (Effect J P H) → ℕ
  attempts [] = 0
  attempts (e ∷ es) = waited e + attempts es

  attempts-++ : (es fs : List (Effect J P H)) → attempts (es ++ fs) ≡ attempts es + attempts fs
  attempts-++ [] fs = omega arith
  attempts-++ (e ∷ es) fs = omega (arith, attempts-++ es fs)

attempts-reconnect :
    (J P H : Type 0) (n : ℕ) (answers : List Bool)
    → attempts (reconnect {J = J} {P = P} {H = H} n answers).0 ≤ n
unfolding reconnect waited
attempts-reconnect J P H zero answers = omega arith
attempts-reconnect J P H (suc n) [] = omega (arith, attempts-reconnect J P H n [])
attempts-reconnect J P H (suc n) (true ∷ bs) = omega arith
attempts-reconnect J P H (suc n) (false ∷ []) = omega (arith, attempts-reconnect J P H n [])
attempts-reconnect J P H (suc n) (false ∷ true ∷ bs) = omega (arith, attempts-reconnect J P H n bs)
attempts-reconnect J P H (suc n) (false ∷ false ∷ bs) = omega (arith, attempts-reconnect J P H n bs)

module _ {J P H : Type 0} where
  abbrev pub effects : Round J P H → List (Effect J P H)
  effects waits = []
  effects stops = []
  effects undefined = []
  effects (served c fx) = fx

  attempts-finish :
      (b : Bool) (fx : List (Effect J P H)) (o : Option (MethodInfo J P × NetworkCoordinator J P H))
      → attempts (effects (finish b fx o)) ≤ attempts fx
  unfolding finish waited
  attempts-finish true fx none = omega arith
  attempts-finish false fx none = omega arith
  attempts-finish true fx (some (i, d)) = omega (arith, attempts-++ fx (passed_on i ∷ []))
  attempts-finish false fx (some (i, d)) =
      omega (arith, attempts-++ fx (not_responding i.prom ∷ []))

  -- Whatever the connection answers, a round of the thread waits for a new connection at most as many
  -- times as the reconnection count says.
  pub thread_round-attempts :
      (answers : List Bool) (c : NetworkCoordinator J P H)
      → attempts (effects (thread_round answers c)) ≤ c.reconnection_count
  unfolding thread_round
  thread_round-attempts answers c =
      let r : List (Effect J P H) × List Bool = reconnect c.reconnection_count answers in
      ground (
        arith,
        attempts-finish (next_answer r.1) r.0 (take_method c),
        attempts-reconnect J P H c.reconnection_count answers,
      )

  -- Of two authorized calls made one after the other the later one is served first, both before the
  -- older authorized calls; of two direct calls the earlier one is served first, both after the older
  -- direct calls and before all the authorized ones.
  pub server_method-order :
      (c : NetworkCoordinator J P H) (m n : String) (a b : J) (p q : P)
      → (waiting (server_method n b q authorized_call (server_method m a p authorized_call c).0).0
          ≡ c.direct_calls
            ++ asked authorized_call n b q ∷ asked authorized_call m a p ∷ c.authorized_calls)
        × (waiting (server_method n b q direct_call (server_method m a p direct_call c).0).0
            ≡ c.direct_calls
              ++ asked direct_call m a p ∷ asked direct_call n b q ∷ c.authorized_calls)
  unfolding server_method
  server_method-order c m n a b p q = (refl, simp append_assoc)
