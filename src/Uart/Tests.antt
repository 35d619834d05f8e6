-- ===== src/Uart/Tests.antt =====
-- The theorems on the serial port at concrete inputs.
use bavy.Prelude.{◌≡◌, refl, false, [], ◌∷◌, ◌++◌, length}
use bavy.Uart.State.{Uart, new, push_input}
use bavy.Uart.Mmio.{dlab}
use bavy.Uart.Ready.{IsReady, start, next, input_pushed, Reached-IsReady}
use bavy.Uart.Input.{receive, push_all, receive-push_all}

-- A byte waits.
abbrev waiting : Uart
waiting = push_input new 65

Reached-IsReady_example : IsReady waiting
Reached-IsReady_example = Reached-IsReady (next start (input_pushed new 65))

new-dlab : dlab new ≡ false
unfolding new
new-dlab = refl

receive-push_all_example :
    ((receive (length (new.rx ++ 72 ∷ 105 ∷ [])) (push_all new (72 ∷ 105 ∷ []))).1
      ≡ new.rx ++ 72 ∷ 105 ∷ [])
    × ((receive (length (new.rx ++ 72 ∷ 105 ∷ [])) (push_all new (72 ∷ 105 ∷ []))).0.rx ≡ [])
receive-push_all_example = receive-push_all new (72 ∷ 105 ∷ []) new-dlab

-- Received-data interrupts enabled, then a byte from the host.
