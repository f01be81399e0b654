-- ===== src/Log/Tests.antt =====
-- Logging threads at small inputs.
use csockets.Base.{
  update, ℕ, refl, Bool, true, false, none, some, List, [], ◌∷◌, ◌==◌, if◌then◌else◌,
}
use csockets.Log.{
  warn, Message, stream, prefix, pieces, emits, print, program, Printer, pdebug, pwarn, perr,
  EchoMessage, program_echo, System, Step, acquires, writes, releases, Reach, start, later,
}
use csockets.Log.Programs.{written}
use csockets.Log.Merging.{Merged, Reach-Merged}
use csockets.Log.Deadlock.{off-deadlock}

abbrev hi : Message
hi = record { level = warn; text = 104 ∷ 105 ∷ [] }

-- Thread 1 has something to say.
abbrev talk : ℕ → List Message
talk i = if i == 1 then hi ∷ [] else []

abbrev quiet : System
quiet = record { holder = none; todo = λ i. program (λ _. true) (talk i); out = [] }

abbrev spoken : (s : System) × Reach quiet s
unfolding program print pieces emits stream prefix
spoken = (
  _,
  later
      (later
        (later (later (later start (acquires 1 _ refl refl)) (writes 1 _ _ _ refl))
          (writes 1 _ _ _ refl))
        (writes 1 _ _ _ refl))
      (releases 1 _ refl),
)

Reach-Merged_example : Merged pieces (λ i. written (λ _. true) (talk i)) spoken.0
unfolding program print pieces emits stream prefix
Reach-Merged_example = Reach-Merged (λ _. true) talk spoken.0 spoken.1 refl

-- "udpecho" with its debug output switched off.
abbrev enabled : Printer → Bool
enabled pdebug = false
enabled pwarn = true
enabled perr = true

abbrev echo_talk : ℕ → List EchoMessage
echo_talk i = if i == 2 then record { printer = pdebug; text = [] } ∷ [] else []

abbrev stuck : System
stuck = record {
  holder = some 2;
  todo = update (λ j. program_echo [] enabled (echo_talk j)) 2 (program_echo [] enabled []);
  out = [];
}

off-deadlock_example :
    Step
      (record { holder = none; todo = λ j. program_echo [] enabled (echo_talk j); out = [] })
      stuck
    × ((t : System) → Step stuck t → ⊥)
off-deadlock_example =
    off-deadlock [] enabled echo_talk 2 (record { printer = pdebug; text = [] }) [] refl refl
