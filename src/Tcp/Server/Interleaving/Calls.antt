-- ===== src/Tcp/Server/Interleaving/Calls.antt =====
-- Which calls end a read on a socket, and which of them the steps of a thread make.
use gologincase.Common.{
  ℕ, ◌+◌, ◌≡◌, ◌≢◌, refl, inl, inr, Bool, List, [], ◌∷◌, ◌++◌, Buffer, find, arith, ◌==◌,
  if◌then◌else◌, Option-cases,
}
use gologincase.Tcp.{Connection, Sys, opens, sends, shuts, closes, invalid_socket, send}
use gologincase.Tcp.Session.{
  Answers, destroy, disconnect, recv, after_error, or_so_error, give_up, read_body,
}
use gologincase.Tcp.Server.{State, send_object}

-- How often a socket has been shut down or closed: what ends a read that is blocked on it.
abbrev pub ends_count : ℕ → List Sys → ℕ
ends_count n [] = 0
ends_count n (shuts s ∷ t) = (if s == n then 1 else 0) + ends_count n t
ends_count n (closes s ∷ t) = (if s == n then 1 else 0) + ends_count n t
ends_count n (_ ∷ t) = ends_count n t

pub ends_count-append :
    (n : ℕ) (t u : List Sys) → ends_count n (t ++ u) ≡ ends_count n t + ends_count n u
ends_count-append n [] u = omega arith
ends_count-append n (opens s ∷ t) u = ends_count-append n t u
ends_count-append n (sends s b ∷ t) u = ends_count-append n t u
ends_count-append n (shuts s ∷ t) u = omega (arith, ends_count-append n t u)
ends_count-append n (closes s ∷ t) u = omega (arith, ends_count-append n t u)

pub ends_count-destroy : (n : ℕ) (c : Connection) → c.socket ≢ n → ends_count n (destroy c) ≡ 0
unfolding destroy
ends_count-destroy n c ne = ground arith

ends_count-disconnect :
    (n : ℕ) (c : Connection)
    → c.socket ≢ n
    → n ≢ invalid_socket
    → (ends_count n (disconnect c).1 ≡ 0) × ((disconnect c).0.socket ≢ n)
unfolding disconnect
ends_count-disconnect n c ne valid = ground arith

pub ends_count-recv :
    (n : ℕ) (c : Connection) (memory : Buffer) (a : Answers)
    → c.socket ≢ n
    → n ≢ invalid_socket
    → (ends_count n (recv c memory a).calls ≡ 0) × ((recv c memory a).conn.socket ≢ n)
unfolding recv after_error or_so_error give_up read_body disconnect
ends_count-recv n c memory a ne valid = ground arith

ends_count-send :
    (n : ℕ) (accepts : ℕ → Buffer → Bool) (c : Connection) (cmd buff : Buffer)
    → ends_count n (send accepts c cmd buff).1 ≡ 0
unfolding send
ends_count-send n accepts c cmd buff = ground arith

pub ends_count-send_object {ℓ} :
    {A : Type ℓ} (n : ℕ) (accepts : ℕ → Buffer → Bool) (o : ℕ) (cmd buff : Buffer) (s : State A)
    → ends_count n (send_object accepts o cmd buff s).1.trace ≡ ends_count n s.trace
unfolding send_object
ends_count-send_object n accepts o cmd buff s = elim (Option-cases (find o s.objects)) [
  | inl e ↦ rw (e, send_object) refl
  | inr (c, e) ↦
      rw (e, send_object)
        (omega (
          arith,
          ends_count-append n s.trace (send accepts c cmd buff).1,
          ends_count-send n accepts c cmd buff,
        ))
]
