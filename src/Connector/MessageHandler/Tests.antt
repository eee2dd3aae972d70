-- ===== src/Connector/MessageHandler/Tests.antt =====
-- The theorems on `MessageHandler` at concrete messages.
use twainet.Prelude.{◌≡◌, refl, some, [], ◌∷◌, arith}
use twainet.Prelude.Bytes.{Bytes, codes, str_eq}
use twainet.Connector.MessageHandler.{Messages, find_message, to_message, on_data, handled}
use twainet.Connector.MessageHandler.RoundTrip.{on_data-to_message}

abbrev registered : Messages
registered = (codes "ModuleName", 3) ∷ (codes "IPCMessage", 7) ∷ []

registered-found : find_message registered (codes "IPCMessage") ≡ some 7
unfolding find_message str_eq
registered-found = refl

on_data-to_message_example :
    (sent : Bytes) × (to_message (codes "IPCMessage") (codes "body") ≡ some sent)
    × (on_data registered sent ≡ handled 7 (codes "body"))
on_data-to_message_example =
    on_data-to_message registered (codes "IPCMessage") (codes "body") 7 (λ e. ground arith)
      (omega arith) registered-found
