-- ===== src/System/Keeps.antt =====
-- Every step of the goroutines keeps the invariant.
use room_chat.Prelude.{
  ap, ℕ, ◌≡◌, refl, true, Option, none, some, Text, text_eq, nat_eq, nat_beq, nat_beq_iff,
  text_beq_iff, arith, subst, sym, ◌∙◌, Bool-cases, inl, inr,
}
use room_chat.Prelude.Maps.{lookup, lookup-insert, lookup-delete}
use room_chat.Protocol.{Message}
use room_chat.Connection.{new_client, empty_queue}
use room_chat.Store.{Store}
use room_chat.Server.Invariant.{IsValid}
use room_chat.Server.Steps.Detach.{IsNew}
use room_chat.System.{
  System, Phase, Hand, idle, handling, absent, waiting, reading, closing, gone, sending, is_live,
  set_phase, set_run, connect, IsUnique,
}
use room_chat.Server.Logins.{SameClients}
use room_chat.System.Invariant.{Owns, Inv}
use room_chat.System.Effect.{Tame, Comes, Leaves}

unknown-none : (o : Option ℕ) → ((q : ℕ) → o ≡ some q → ⊥) → o ≡ none
unknown-none none h = refl
unknown-none (some q) h = absurd (h q refl)

-- A connection that waits is new to the registry.
pub waiting-IsNew : (x : System) (p : ℕ) → Inv x → x.phase p ≡ waiting → IsNew x.store p
waiting-IsNew x p h at_register = record {
  unknown = unknown-none (lookup x.store.clients (x.store.client_at p).conn_id) (λ q e. ground (
    arith,
    h.known (x.store.client_at p).conn_id q,
    h.valid.conns.client_named (x.store.client_at p).conn_id q,
    h.apart p q,
  ));
  unused = (h.fresh p at_register).0;
  anonymous = (h.fresh p at_register).1;
}

-- Who is logged in stays logged in, under that name.
Owns-keep :
    (s t : Store) (p : ℕ) (m : Message)
    → (t.client_at p).conn_id ≡ (s.client_at p).conn_id
    → ((s.client_at p).authenticated ≡ true → t.client_at p ≡ s.client_at p)
    → Owns s p m
    → Owns t p m
Owns-keep s t p m named stays (e, inl by_login) = (e ∙ sym named, inl by_login)
Owns-keep s t p m named stays (e, inr (yes_in, name)) =
    (e ∙ sym named, inr (rw (stays yes_in) (yes_in, name)))

-- A live connection goes on, while the store changes tamely.
abbrev person : Hand → ℕ
person idle = 0
person (handling p m) = p

abbrev content : Message → Hand → Message
content n idle = n
content n (handling p m) = m

pub handling-inj : (p q : ℕ) (m n : Message) → handling p m ≡ handling q n → (p ≡ q) × (m ≡ n)
handling-inj p q m n e = (ap person e, ap (content m) e)

pub Tame-Inv :
    (x : System) (p : ℕ) (ph : Phase) (t : Store)
    → Inv x
    → is_live (x.phase p) ≡ true
    → is_live ph ≡ true
    → ((m : Message) → ph ≡ sending m → Owns x.store p m)
    → Tame p x.store t
    → IsValid t
    → Inv (set_phase p ph t x)
Tame-Inv x p ph t h before after owned k v = record {
  valid = v;
  fresh = λ q e. ground (arith, nat_beq_iff p q, h.fresh q, k.others q, k.shut q);
  live = λ q e. rw (k.registry, k.named q) (ground (arith, nat_beq_iff p q, h.live q));
  known = λ id q e. ground (arith, nat_beq_iff p q, h.known id q, k.registry);
  apart = λ q r e f same.
      ground (arith, nat_beq_iff p q, nat_beq_iff p r, h.apart q r, k.named q, k.named r);
  own = λ q m e. Owns-keep x.store t q m (k.named q) (k.stays q) (elim (Bool-cases (nat_beq p q)) [
    | inl here ↦ subst (λ r. Owns x.store r m) ((nat_beq_iff p q).0 here) (owned m (ground arith))
    | inr other ↦ h.own q m (ground arith)
  ]);
  taken = λ q m e. (
    ground (arith, nat_beq_iff p q, (h.taken q m e).0),
    Owns-keep x.store t q m (k.named q) (k.stays q) (h.taken q m e).1,
  );
}

-- `Run` has received the message that a reader hands on.
pub take-Inv :
    (x : System) (p : ℕ) (m : Message)
    → Inv (set_phase p reading x.store x)
    → Owns x.store p m
    → Inv (set_run (handling p m) (set_phase p reading x.store x))
take-Inv x p m h owned = record {
  valid = h.valid;
  fresh = h.fresh;
  live = h.live;
  known = h.known;
  apart = h.apart;
  own = h.own;
  taken = λ q n e.
      let (same, at_it) = handling-inj p q m n e in
      (
        ground (arith, nat_beq_iff p q, same),
        subst (λ r. Owns x.store r n) same (subst (λ k. Owns x.store p k) at_it owned),
      );
}

-- `Run` has come to the end of its handler.
pub handled-Inv :
    (x : System) (p : ℕ) (t : Store)
    → Inv x
    → is_live (x.phase p) ≡ true
    → Tame p x.store t
    → IsValid t
    → Inv (record x { store = t; run = idle })
handled-Inv x p t h before k v = record {
  valid = v;
  fresh = λ q e. ground (arith, nat_beq_iff p q, h.fresh q, k.others q, k.shut q, before);
  live = λ q e. rw (k.registry, k.named q) (h.live q e);
  known = λ id q e. h.known id q (ground (arith, k.registry));
  apart = λ q r e f same. ground (arith, h.apart q r, k.named q, k.named r);
  own = λ q m e. Owns-keep x.store t q m (k.named q) (k.stays q) (h.own q m e);
  taken = λ q m e. absurd (cc);
}

-- The writing goroutine changes no phase.
pub quiet-Inv :
    (x : System) (t : Store)
    → Inv x
    → SameClients x.store t
    → IsValid t
    → Inv (record x { store = t })
quiet-Inv x t h k v = record {
  valid = v;
  fresh = λ q e. rw k.states (ground (arith, h.fresh q e, k.shut q));
  live = λ q e. rw (k.registry, k.states) (h.live q e);
  known = λ id q e. h.known id q (ground (arith, k.registry));
  apart = λ q r e f. rw k.states (h.apart q r e f);
  own = λ q m e. Owns-keep x.store t q m (rw k.states refl) (λ g. rw k.states refl) (h.own q m e);
  taken = λ q m e. (
    (h.taken q m e).0,
    Owns-keep x.store t q m (rw k.states refl) (λ g. rw k.states refl) (h.taken q m e).1,
  );
}

pub connect-Inv :
    (x : System) (p : ℕ) (uuid : Text)
    → Inv x
    → x.phase p ≡ absent
    → IsUnique x uuid
    → IsValid (connect p uuid x.store)
    → Inv (set_phase p waiting (connect p uuid x.store) x)
unfolding new_client empty_queue
connect-Inv x p uuid h nobody unique v = record {
  valid = v;
  fresh = λ q e. ground (arith, nat_beq_iff p q, h.fresh q);
  live = λ q e. ground (arith, nat_beq_iff p q, h.live q);
  known = λ id q e. ground (arith, nat_beq_iff p q, h.known id q);
  apart = λ q r e f same.
      ground (arith, nat_beq_iff p q, nat_beq_iff p r, h.apart q r, unique q, unique r);
  own = λ q m e.
      Owns-keep x.store (connect p uuid x.store) q m (ground (arith, nat_beq_iff p q))
        (λ g. ground (arith, nat_beq_iff p q)) (h.own q m (ground (arith, nat_beq_iff p q)));
  taken = λ q m e. (
    ground (arith, nat_beq_iff p q, (h.taken q m e).0),
    Owns-keep x.store (connect p uuid x.store) q m
        (ground (arith, nat_beq_iff p q, (h.taken q m e).0))
        (λ g. ground (arith, nat_beq_iff p q, (h.taken q m e).0)) (h.taken q m e).1,
  );
}

pub Comes-Inv :
    (x : System) (p : ℕ) (t : Store)
    → Inv x
    → x.phase p ≡ waiting
    → Comes p x.store t
    → IsValid t
    → Inv (set_phase p reading t x)
Comes-Inv x p t h at_register k v = record {
  valid = v;
  fresh = λ q e. rw k.states (ground (arith, nat_beq_iff p q, h.fresh q, k.shut q));
  live = λ q e.
      rw (k.registry, k.states)
        (ground (
          arith,
          nat_beq_iff p q,
          h.live q,
          h.apart p q,
          text_beq_iff (x.store.client_at p).conn_id (x.store.client_at q).conn_id,
          lookup-insert (x.store.client_at p).conn_id (x.store.client_at q).conn_id p
              x.store.clients,
        ));
  known = λ id q e. ground (
    arith,
    nat_beq_iff p q,
    h.known id q,
    k.registry,
    lookup-insert (x.store.client_at p).conn_id id p x.store.clients,
  );
  apart = λ q r e f.
      rw k.states (λ same. ground (arith, nat_beq_iff p q, nat_beq_iff p r, h.apart q r));
  own = λ q m e.
      Owns-keep x.store t q m (rw k.states refl) (λ g. rw k.states refl)
        (h.own q m (ground (arith, nat_beq_iff p q)));
  taken = λ q m e. (
    ground (arith, nat_beq_iff p q, (h.taken q m e).0),
    Owns-keep x.store t q m (rw k.states refl) (λ g. rw k.states refl) (h.taken q m e).1,
  );
}

pub Leaves-Inv :
    (x : System) (p : ℕ) (t : Store)
    → Inv x
    → x.run ≡ idle
    → x.phase p ≡ closing
    → Leaves p x.store t
    → IsValid t
    → Inv (set_phase p gone t x)
Leaves-Inv x p t h free at_close k v = record {
  valid = v;
  fresh = λ q e. rw k.states (ground (arith, nat_beq_iff p q, h.fresh q, k.shut q));
  live = λ q e.
      rw (k.registry, k.states)
        (ground (
          arith,
          nat_beq_iff p q,
          h.live q,
          h.apart p q,
          text_beq_iff (x.store.client_at p).conn_id (x.store.client_at q).conn_id,
          lookup-delete (x.store.client_at p).conn_id (x.store.client_at q).conn_id x.store.clients,
        ));
  known = λ id q e. ground (
    arith,
    nat_beq_iff p q,
    h.known id q,
    h.valid.conns.client_named id q,
    text_beq_iff (x.store.client_at p).conn_id id,
    k.registry,
    lookup-delete (x.store.client_at p).conn_id id x.store.clients,
  );
  apart = λ q r e f.
      rw k.states (λ same. ground (arith, nat_beq_iff p q, nat_beq_iff p r, h.apart q r));
  own = λ q m e.
      Owns-keep x.store t q m (rw k.states refl) (λ g. rw k.states refl)
        (h.own q m (ground (arith, nat_beq_iff p q)));
  taken = λ q m e. absurd (cc (free, e));
}
