-- ===== src/Tests/Keyboard.antt =====
-- src/session.rs, the Kitty keyboard states on concrete inputs.
use pterm.Common.{codes, to_string, pop_back, ◌≡◌, refl, [], ◌∷◌, ◌++◌, arith}
use pterm.Kitty.{KittyKeyboardState, append_snapshot}
use pterm.Kitty.Replay.{append_snapshot-render, replay-commands, render, commands, replay, below}

abbrev pushed : KittyKeyboardState
pushed = record { flags = 5; stack = 0 ∷ 1 ∷ [] }

append_snapshot_text : append_snapshot pushed [] ≡ codes "\u{1b}[<u\u{1b}[=0u\u{1b}[>1u\u{1b}[>5u"
unfolding append_snapshot to_string
append_snapshot_text = refl

append_snapshot-render_example :
    append_snapshot pushed (codes "ok") ≡ codes "ok" ++ render (commands pushed)
append_snapshot-render_example = append_snapshot-render pushed (codes "ok")

-- A terminal with two entries keeps one of them below the replayed stack.
replay-commands_example :
    replay (commands pushed) (record { flags = 7; stack = 3 ∷ 4 ∷ [] })
    ≡ record { flags = 5; stack = below (3 ∷ 4 ∷ []) ++ 0 ∷ 1 ∷ [] }
unfolding pop_back
replay-commands_example =
    replay-commands pushed (record { flags = 7; stack = 3 ∷ 4 ∷ [] }) (omega arith)
