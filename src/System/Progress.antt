-- ===== src/System/Progress.antt =====
-- What waits for a `Run` that is not blocked, or for room in its own queue, can go on.
use room_chat.Prelude.{
  ℕ, ◌≡◌, ◌⊎◌, ◌∙◌, refl, Bool, true, false, Option, some, Text, List, [], ◌∷◌, text_eq, nat_eq,
  nat_beq_iff, arith, inl, inr,
}
use room_chat.Prelude.Maps.{lookup}
use room_chat.Protocol.{Message}
use room_chat.Connection.{Client, Queue, has_room}
use room_chat.User.{User}
use room_chat.Channel.{Channel}
use room_chat.Users.{Repository, Bcrypt}
use room_chat.Elastic.{SearchClient}
use room_chat.Server.Run.{registered, unregistered, dispatched}
use room_chat.Server.Invariant.{IsValid}
use room_chat.Server.Keeps.LoggingIn.{FindsByName}
use room_chat.Server.Events.{TokenIsWhole, handle_event-IsValid}
use room_chat.Server.Reachable.{Returns-cases, send_open}
use room_chat.System.{
  System, Phase, Hand, idle, handling, waiting, reading, closing, gone, replying, sending,
  new_system, Step, run_register, answer, run_dispatch, run_handle, run_unregister, write, Reach,
  here, next, take_first,
}
use room_chat.System.Invariant.{Inv}
use room_chat.System.Keeps.{waiting-IsNew}
use room_chat.System.Handling.{sender-HasRoom}
use room_chat.System.Reached.{Reach-Inv, Step-Inv, sender}

-- The goroutine of the connection is at a statement that waits for another one.
abbrev pub is_held : Phase → Bool
is_held waiting = true
is_held (replying m) = true
is_held (sending m) = true
is_held closing = true
is_held _ = false

-- The goroutine has come past that statement: a message is with `Run`.
abbrev pub HasMoved : System → ℕ → Phase → Type 0
HasMoved y p closing = y.phase p ≡ gone
HasMoved y p (sending m) = (y.phase p ≡ reading) × (y.run ≡ handling p m)
HasMoved y p _ = y.phase p ≡ reading

-- The queue of the connection has room, or a writer that empties it.
abbrev pub IsEmptied : System → ℕ → Type 0
IsEmptied x p = (has_room (x.store.queue_at p) ≡ true) ⊎ (x.writing p ≡ true)

-- `Run` is not blocked: it is at its select, or the message that it handles came from a connection
-- whose queue is emptied, and its token is whole if it is a login.
abbrev pub IsUnblocked : System → Hand → Type 0
IsUnblocked x idle = Unit {0}
IsUnblocked x (handling p m) = IsEmptied x p × TokenIsWhole m.action m

-- What the goroutine waits for is not blocked: for an error it is the queue, else `Run`.
abbrev pub IsServed : System → ℕ → Phase → Type 0
IsServed x p (replying m) = IsEmptied x p
IsServed x p _ = IsUnblocked x x.run

module _ (repo : Repository) (bcrypt : Bcrypt) (search : SearchClient) {Frame : Type 0}
    (unmarshal : Frame → Text ⊎ Message) (validate : Message → Option Text) (law : FindsByName repo)
    (db : repo.Db) where
  -- A state that can be reached, in which the connection has gone on.
  abbrev pub GoesOn : System → ℕ → Phase → Type 0
  GoesOn x p ph = (y : System) × Reach repo bcrypt search unmarshal validate x y × HasMoved y p ph

  earlier :
      {x y z : System}
      → Reach repo bcrypt search unmarshal validate x y
      → Reach repo bcrypt search unmarshal validate y z
      → Reach repo bcrypt search unmarshal validate x z
  earlier r here = r
  earlier r (next later st) = next (earlier r later) st

  -- `Run` has come to its select, and no other goroutine has moved.
  abbrev pub IsFreed : System → Type 0
  IsFreed x =
      (y : System) × Reach repo bcrypt search unmarshal validate x y
      × Inv y
      × (y.run ≡ idle)
      × ((q : ℕ) → y.phase q ≡ x.phase q)

  -- A writer makes room, and nothing else.
  abbrev Drains : System → ℕ → Type 0
  Drains x p =
      (y : System) × Reach repo bcrypt search unmarshal validate x y
      × Inv y
      × (y.run ≡ x.run)
      × ((q : ℕ) → y.phase q ≡ x.phase q)
      × (has_room (y.store.queue_at p) ≡ true)

  drained :
      (ms : List Message) (x : System) (p : ℕ)
      → (x.store.queue_at p).buffer ≡ ms
      → Inv x
      → x.writing p ≡ true
      → Drains x p
  drained [] x p waits h running = (x, here, h, refl, (λ q. refl), rw waits refl)
  drained (m ∷ ms) x p waits h running =
      let x' : System = record x { store = take_first p ms x.store } in
      let st : Step repo bcrypt search unmarshal validate x x' = write p m ms running waits in
      let (y, r, k, hand, same, room) =
        drained ms x' p (ground (arith, nat_beq_iff p p))
          (Step-Inv repo bcrypt search unmarshal validate law st h) running in
      (y, earlier (next here st) r, k, hand, same, room)

  emptied : (x : System) (p : ℕ) → Inv x → IsEmptied x p → Drains x p
  emptied x p h (inl room) = (x, here, h, refl, (λ q. refl), room)
  emptied x p h (inr running) = drained (x.store.queue_at p).buffer x p refl h running

  -- With room, the handler comes to its end.
  handled-IsFreed :
      (x : System) (p : ℕ) (m : Message)
      → Inv x
      → x.run ≡ handling p m
      → has_room (x.store.queue_at p) ≡ true
      → TokenIsWhole m.action m
      → IsFreed x
  handled-IsFreed x p m h at_run room whole =
      let known : lookup x.store.clients m.client_id ≡ some p =
        sender repo bcrypt search unmarshal validate x p m h (inr at_run) in
      let (t, run, valid) = Returns-cases _ IsValid (
        handle_event-IsValid repo bcrypt search db law (dispatched m) x.store h.valid
          (sender-HasRoom x.store m.client_id p known room, whole)) in
      let y : System = record x { store = t; run = idle } in
      let st : Step repo bcrypt search unmarshal validate x y = run_handle db p m t at_run run in
      (y, next here st, Step-Inv repo bcrypt search unmarshal validate law st h, refl, λ q. refl)

  freed : (r : Hand) (x : System) → x.run ≡ r → Inv x → IsUnblocked x r → IsFreed x
  freed idle x at_run h free = (x, here, h, at_run, λ q. refl)
  freed (handling p m) x at_run h (served, whole) =
      let (y, r, k, hand, same, room) = emptied x p h served in
      let (z, later, l, free, still) = handled-IsFreed y p m k (hand ∙ at_run) room whole in
      (z, earlier r later, l, free, λ q. still q ∙ same q)

  -- From a `Run` at its select.
  run_register-goes :
      (x : System) (p : ℕ) → Inv x → x.run ≡ idle → x.phase p ≡ waiting → GoesOn x p waiting
  run_register-goes x p h free at_it =
      let (t, run, valid) = Returns-cases _ IsValid (
        handle_event-IsValid repo bcrypt search db law (registered p) x.store h.valid
          (waiting-IsNew x p h at_it)) in
      (_, next here (run_register db p t free at_it run), ground (arith, nat_beq_iff p p))

  run_unregister-goes :
      (x : System) (p : ℕ) → Inv x → x.run ≡ idle → x.phase p ≡ closing → GoesOn x p closing
  run_unregister-goes x p h free at_it =
      let (t, run, valid) = Returns-cases _ IsValid (
        handle_event-IsValid repo bcrypt search db law (unregistered p) x.store h.valid
          (h.live p (rw at_it refl))) in
      (_, next here (run_unregister db p t free at_it run), ground (arith, nat_beq_iff p p))

  answer-goes :
      (x : System) (p : ℕ) (m : Message)
      → Inv x
      → x.phase p ≡ replying m
      → has_room (x.store.queue_at p) ≡ true
      → GoesOn x p (replying m)
  answer-goes x p m h at_it room =
      let opened : (x.store.queue_at p).closed ≡ false =
        h.valid.conns.open_queue (x.store.client_at p).conn_id p (h.live p (rw at_it refl)) in
      (
        _,
        next here (answer p m _ at_it (send_open p m x.store opened room)),
        ground (arith, nat_beq_iff p p),
      )

  free-goes :
      (ph : Phase) (x : System) (p : ℕ)
      → IsFreed x
      → x.phase p ≡ ph
      → ((y : System) → Inv y → y.run ≡ idle → y.phase p ≡ ph → GoesOn y p ph)
      → GoesOn x p ph
  free-goes ph x p (y, r, k, free, same) at_it go =
      let (z, later, moved) = go y k free (same p ∙ at_it) in (z, earlier r later, moved)

  held-goes :
      (ph : Phase) (x : System) (p : ℕ)
      → x.phase p ≡ ph
      → Inv x
      → is_held ph ≡ true
      → IsServed x p ph
      → GoesOn x p ph
  held-goes waiting x p at_it h held served =
      free-goes waiting x p (freed x.run x refl h served) at_it (λ y. run_register-goes y p)
  held-goes closing x p at_it h held served =
      free-goes closing x p (freed x.run x refl h served) at_it (λ y. run_unregister-goes y p)
  held-goes (replying m) x p at_it h held served =
      let (y, r, k, hand, same, room) = emptied x p h served in
      let (z, later, moved) = answer-goes y p m k (same p ∙ at_it) room in
      (z, earlier r later, moved)
  held-goes (sending m) x p at_it h held served =
      free-goes (sending m) x p (freed x.run x refl h served) at_it (λ y k free at_send.
        (_, next here (run_dispatch p m free at_send), (ground (arith, nat_beq_iff p p), refl)))
  held-goes _ x p at_it h held served = absurd (cc)

  -- If the repository finds users by their name: whatever the goroutines of all connections have
  -- done since the server started. If `Run` is at its select, or handles a message of a connection
  -- whose queue has room or whose writer still runs, and which, if it is a login, has no token
  -- shorter than the prefix, then every goroutine that waits for `Run` to take its connection or
  -- its message can come past that statement, and its message is then with `Run`. A reader that
  -- waits for room in its own queue can come past that statement if the queue has room or its
  -- writer still runs, whatever `Run` does.
  pub Reach-GoesOn :
      (client_at : ℕ → Client) (queue_at : ℕ → Queue) (user_at : ℕ → User)
      (channel_at : ℕ → Channel) {x : System}
      → Reach repo bcrypt search unmarshal validate
          (new_system client_at queue_at user_at channel_at)
          x
      → (p : ℕ) → is_held (x.phase p) ≡ true
      → IsServed x p (x.phase p)
      → GoesOn x p (x.phase p)
  Reach-GoesOn client_at queue_at user_at channel_at {x} r p =
      held-goes (x.phase p) x p refl (
        Reach-Inv repo bcrypt search unmarshal validate law client_at queue_at user_at channel_at r)
