-- ===== src/Discord/Retries.antt =====
-- roles/discord_guild/_archive/discord_reconcile.py: the attempts of `api`.
use ansible_platform.Prelude.{ℕ, zero, suc, ◌+◌, ◌≤◌, ◌<◌, ◌≡◌, arith}
use ansible_platform.Prelude.Exec.{Result, ok}
use ansible_platform.Discord.{
  Request, Reply, Answer, answered, http_error, failed, Remote, Run, answer_or_again, attempts, api,
}

-- Discord with a counter of the requests that were sent to it
abbrev pub tallying : Remote → Remote
tallying d = record {
  World = Remote.World d × ℕ;
  send = λ q w. ((d.send q w.0).0, ((d.send q w.0).1, suc w.1));
  sleep = λ w. (d.sleep w.0, w.1);
}

-- The world in which attempt `k` begins, from 0, if the attempts before it were answered by 429
abbrev pub after_waits : (d : Remote) → Request → ℕ → Remote.World d → Remote.World d
after_waits d q zero w = w
after_waits d q (suc k) w = after_waits d q k (d.sleep (d.send q w).1)

module _ (d : Remote) where
  turn-tally :
      {A : Type 0} (left : ℕ) (again : Remote.World d × ℕ → Result A × (Remote.World d × ℕ))
      (answer : Answer A) (v : Remote.World d) (n : ℕ)
      → ((w : Remote.World d × ℕ) → (again w).1.1 ≤ w.1 + left)
      → (answer_or_again (tallying d) again (answer, (v, suc n))).1.1 ≤ n + suc left
  turn-tally left again (answered x) v n ih = omega arith
  turn-tally left again (http_error code) v n ih = ground (arith, ih (d.sleep v, suc n))
  turn-tally left again failed v n ih = omega arith

  attempts-tally :
      (left : ℕ) (q : Request) (w : Remote.World d × ℕ)
      → (attempts (tallying d) left q w).1.1 ≤ w.1 + left
  unfolding attempts
  attempts-tally zero q w = omega arith
  attempts-tally (suc left) q w =
      turn-tally left (attempts (tallying d) left q) (d.send q w.0).0 (d.send q w.0).1 w.1
        (λ v. attempts-tally left q v)

  -- A call of `api` sends its request at most five times, whatever Discord answers.
  pub api_bounded :
      (q : Request) (s : Run (Remote.World d × ℕ))
      → (api (tallying d) q s).1.world.1 ≤ s.world.1 + 5
  unfolding api
  api_bounded q s = attempts-tally 5 q s.world

  turn-answered :
      {A : Type 0} (again : Remote.World d → Result A × Remote.World d)
      (t : Answer A × Remote.World d) (r : A)
      → t.0 ≡ answered r
      → (answer_or_again d again t).0 ≡ ok r
  turn-answered again (answered x, v) r e = grind (arith, e)
  turn-answered again (http_error code, v) r e = absurd (cc)
  turn-answered again (failed, v) r e = absurd (cc)

  turn-limited :
      {A : Type 0} (again : Remote.World d → Result A × Remote.World d)
      (t : Answer A × Remote.World d)
      → t.0 ≡ http_error 429
      → answer_or_again d again t ≡ again (d.sleep t.1)
  turn-limited again (answered x, v) e = absurd (cc)
  turn-limited again (http_error code, v) e = ground (arith, e)
  turn-limited again (failed, v) e = absurd (cc)

  attempts-answered :
      (left k : ℕ) (q : Request) (w : Remote.World d) (r : Reply q)
      → k < left
      → ((j : ℕ) → j < k → (d.send q (after_waits d q j w)).0 ≡ http_error 429)
      → (d.send q (after_waits d q k w)).0 ≡ answered r
      → (attempts d left q w).0 ≡ ok r
  unfolding attempts
  attempts-answered zero k q w r h limited e = absurd (omega arith)
  attempts-answered (suc left) zero q w r h limited e =
      turn-answered (attempts d left q) (d.send q w) r e
  attempts-answered (suc left) (suc k) q w r h limited e =
      rw (turn-limited (attempts d left q) (d.send q w) (limited 0 (omega arith))) (
        attempts-answered left k q (d.sleep (d.send q w).1) r (omega arith)
          (λ j l. limited (suc j) (omega arith)) e)

  -- If Discord answers a request by 429 fewer than five times in a row and then gives a reply,
  -- `api` gives that reply.
  pub api_gets_through :
      (k : ℕ) (q : Request) (s : Run (Remote.World d)) (r : Reply q)
      → k < 5
      → ((j : ℕ) → j < k → (d.send q (after_waits d q j s.world)).0 ≡ http_error 429)
      → (d.send q (after_waits d q k s.world)).0 ≡ answered r
      → (api d q s).0 ≡ ok r
  unfolding api
  api_gets_through k q s r h limited e = attempts-answered 5 k q s.world r h limited e
