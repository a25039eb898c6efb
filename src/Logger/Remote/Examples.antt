-- ===== src/Logger/Remote/Examples.antt =====
-- A connection that is lost behind the first of two messages, in logger/remotethread.cpp.
use cproject.Base.{ℕ, zero, suc, ◌<◌, ◌≡◌, ◌≢◌, refl, false, [], ◌∷◌, length, arith}
use cproject.Base.Text.{codes}
use cproject.Logger.Client.{MessageList}
use cproject.Logger.Remote.{Remote, append, Answer, unconnected, taken, run_work}
use cproject.Logger.Remote.Loss.{run_work-loses}

abbrev answer : ℕ → Answer
answer zero = taken
answer (suc n) = unconnected

abbrev arrived : MessageList
arrived = (codes "d/f", codes "a" ∷ codes "b" ∷ []) ∷ []

abbrev remote : Remote
remote = record { msg_list = []; local_exists = false; delivered = []; local_file = [] }

all_at_hand : append 100 arrived [] ≡ codes "a" ∷ codes "b" ∷ []
unfolding append
all_at_hand = refl

first_taken : (j : ℕ) → j < 1 → answer j ≡ taken
first_taken zero h = refl
first_taken (suc j) h = absurd (omega arith)

some_list : length arrived ≢ 0
some_list = λ e. absurd (omega arith)

run_work-loses_example :
    run_work 100 answer arrived remote
    ≡ record { msg_list = []; local_exists = false; delivered = codes "a" ∷ []; local_file = [] }
run_work-loses_example =
    run_work-loses answer 100 arrived remote (codes "a") [] (codes "b" ∷ []) some_list all_at_hand
      first_taken refl
