-- ===== src/Tcp/Server/Interleaving/Reuse.antt =====
-- What happens when the system gives a number away that the list still has.
use gologincase.Common.{
  ℕ, ◌≡◌, refl, ap, Bool, false, none, some, Buffer, Table, find, emplace, put, find-erase, arith,
}
use gologincase.Dispatcher.{Handler}
use gologincase.Tcp.{Connection}
use gologincase.Tcp.Session.{Received, create}
use gologincase.Tcp.Server.{State, after_recv, send_to}
use gologincase.Tcp.Server.Interleaving.{
  created, serving, closing, running, takes, after_accept, Thread, System, update, accept, enter,
  leave, Reach, here, later,
}
use gologincase.Tcp.Server.Interleaving.Steps.{after_recv-tables}

module _ {ℓ} {A : Type ℓ} (accepts : ℕ → Buffer → Bool) (hash : Buffer → ℕ)
    (handlers : Table (Handler (State A))) (Allows : System A → ℕ → Type 0) where
  -- When the `recv` of a client has failed, its number `n` may be in the list until its thread takes it
  -- out. If the server is up and the system gives that number to a new client before, then a state can
  -- be reached in which the new client's thread serves it and the list does not have it: what is
  -- sent to the number `n` reaches nobody.
  pub reused_number :
      (s : System A) (p o n : ℕ) (got : Received)
      → s.thread p ≡ some (record { cid = n; pc = closing got })
      → got.ok ≡ false
      → s.thread o ≡ none
      → find o s.state.objects ≡ none
      → Allows s n
      → s.phase ≡ running
      → (t : System A) × Reach accepts hash handlers Allows s t
        × (t.thread o ≡ some (record { cid = n; pc = serving }))
        × (find n t.state.client_list ≡ none)
        × ((cmd buff : Buffer)
            → send_to accepts (record { server_client_id = n }) cmd buff t.state ≡ (false, t.state))
  unfolding send_to
  reused_number s p o n got at lost free new allowed up = (
    t,
    later (later (later here (accept o n free new allowed (ap takes up))) (enter o n first))
        (leave p n got second lost),
    third,
    gone,
    λ cmd buff. rw (gone, send_to) refl,
  )
    where
      newcomer : Thread
      newcomer = record { cid = n; pc = created }

      new_client : System A
      new_client = record s {
        state = record s.state { objects = put o (create n) s.state.objects };
        thread = update s.thread o (some newcomer);
        phase = after_accept s.phase;
      }

      both : System A
      both = record new_client {
        state = record new_client.state { client_list = emplace n o s.state.client_list };
        thread = update new_client.thread o (some (record { cid = n; pc = serving }));
      }

      t : System A
      t = record both {
        state = (after_recv accepts hash handlers got n p both.state).1;
        thread = update both.thread p none;
      }

      first : new_client.thread o ≡ some newcomer
      first = ground arith

      second : both.thread p ≡ some (record { cid = n; pc = closing got })
      second = ground arith

      third : t.thread o ≡ some (record { cid = n; pc = serving })
      third = ground arith

      gone : find n t.state.client_list ≡ none
      gone = ground (
        arith,
        ap (λ (x : Table ℕ × Table Connection). x.0)
            (after_recv-tables accepts hash handlers got n p both.state lost),
        find-erase n n (emplace n o s.state.client_list),
      )
