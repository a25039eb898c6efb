-- ===== src/Logger/Remote/Loss.antt =====
-- logger/remotethread.cpp: what becomes of the messages when the connection is lost on the way.
use cproject.Base.{
  ℕ, suc, ◌+◌, ◌<◌, ◌≤◌, ◌≡◌, ◌≢◌, refl, ap, subst, ◌∙◌, Bool, true, false, ◌==◌, if◌then◌else◌,
  List, [], ◌∷◌, ◌++◌, length, arith,
}
use cproject.Base.Text.{Text}
use cproject.Logger.Client.{MessageList}
use cproject.Logger.Remote.{
  Remote, append, Answer, unconnected, taken, send_all, finish_transfer, transfer, run_work,
}

module _ (answer : ℕ → Answer) where
  -- All the messages are taken up to where there is no connection.
  send_all-taken :
      (i : ℕ) (is_ok : Bool) (xs ys : List Text)
      → ((j : ℕ) → i ≤ j → j < i + length xs → answer j ≡ taken)
      → answer (i + length xs) ≡ unconnected
      → send_all answer i is_ok (xs ++ ys) ≡ (xs, if length xs == 0 then is_ok else true)
  unfolding send_all
  send_all-taken i is_ok [] [] all stop = refl
  send_all-taken i is_ok [] (y ∷ ys) all stop =
      rw (subst (λ k. answer k ≡ unconnected) {y = i} (omega arith) stop) refl
  send_all-taken i is_ok (x ∷ xs) ys all stop =
      let rest : send_all answer (suc i) true (xs ++ ys) ≡ (xs, true) =
        send_all-taken (suc i) true xs ys (λ j le lt. all j (omega arith) (omega arith))
          (subst (λ k. answer k ≡ unconnected) (omega arith) stop)
        ∙ ap (λ b. (xs, b)) (same_test (length xs == 0)) in
      rw (all i (omega arith) (omega arith), rest) (ap (λ b. (x ∷ xs, b)) (ground arith))
    where
      same_test : (b : Bool) → (if b then true else true) ≡ true
      same_test true = refl
      same_test false = refl

  -- Where at least one message is taken and then the connection is lost, the messages behind it are
  -- neither delivered nor written to the local file, and they wait no more.
  pub run_work-loses :
      (memo : ℕ) (list : MessageList) (r : Remote) (x : Text) (xs ys : List Text)
      → length list ≢ 0
      → append memo list r.msg_list ≡ (x ∷ xs) ++ ys
      → ((j : ℕ) → j < length (x ∷ xs) → answer j ≡ taken)
      → answer (length (x ∷ xs)) ≡ unconnected
      → run_work memo answer list r ≡ record {
        msg_list = [];
        local_exists = r.local_exists;
        delivered = r.delivered ++ (x ∷ xs);
        local_file = if r.local_exists then [] else r.local_file;
      }
  unfolding run_work transfer finish_transfer
  run_work-loses memo list r x xs ys ne e all stop =
      let sent : send_all answer 0 false ((x ∷ xs) ++ ys) ≡ (x ∷ xs, true) =
        send_all-taken 0 false (x ∷ xs) ys (λ j le lt. all j (omega arith))
          (subst (λ k. answer k ≡ unconnected) (omega arith) stop)
        ∙ ap (λ b. (x ∷ xs, b)) (ground arith) in
      ap (λ a. transfer answer a r) {y = (x ∷ xs) ++ ys} (rw (some_messages (length list) ne) e)
      ∙ rw (some_messages (suc (length (xs ++ ys))) (positive (length (xs ++ ys)))) (
          ap
            (λ (p : List Text × Bool).
              finish_transfer p.1
                (record r { msg_list = (x ∷ xs) ++ ys; delivered = r.delivered ++ p.0 }))
            sent)
    where
      positive : (n : ℕ) → suc n ≢ 0
      positive n e = absurd (omega arith)

      some_messages : (n : ℕ) → n ≢ 0 → (n == 0) ≡ false
      some_messages n h = ground arith
