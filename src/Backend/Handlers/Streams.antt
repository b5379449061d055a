-- ===== src/Backend/Handlers/Streams.antt =====
-- How streamHandler (backend/backend.go) empties the two log channels.
use etcd_play.Base.{Bool, true, false, List, [], ◌∷◌, ◌++◌}
use etcd_play.Proc.Message.{Message}
use etcd_play.Backend.Handlers.Pages.{drain}

-- `zs` holds the messages of `xs` and of `ys`, each in its order.
pub data Interleaves : List Message → List Message → List Message → Type 0 where
  nil : Interleaves [] [] []
  left :
      {xs ys zs : List Message} (m : Message)
      → Interleaves xs ys zs
      → Interleaves (m ∷ xs) ys (m ∷ zs)
  right :
      {xs ys zs : List Message} (m : Message)
      → Interleaves xs ys zs
      → Interleaves xs (m ∷ ys) (m ∷ zs)

own-Interleaves : (ys : List Message) → Interleaves [] ys ys
own-Interleaves [] = nil
own-Interleaves (m ∷ ys) = right m (own-Interleaves ys)

append-Interleaves : (xs ys : List Message) → Interleaves xs ys (xs ++ ys)
append-Interleaves [] ys = own-Interleaves ys
append-Interleaves (m ∷ xs) ys = left m (append-Interleaves xs ys)

shared-Interleaves : (xs : List Message) → Interleaves xs [] xs
shared-Interleaves [] = nil
shared-Interleaves (m ∷ xs) = left m (shared-Interleaves xs)

-- However select chooses between the channels, the logs shown hold every message of the shared
-- stream and of the user's own, none lost, none twice, and each stream's in its order.
pub drain-Interleaves :
    (picks : List Bool) (shared own : List Message)
    → Interleaves shared own (drain picks shared own)
unfolding drain
drain-Interleaves [] shared own = append-Interleaves shared own
drain-Interleaves (b ∷ picks) [] own = own-Interleaves own
drain-Interleaves (b ∷ picks) (m ∷ shared) [] = shared-Interleaves (m ∷ shared)
drain-Interleaves (true ∷ picks) (m ∷ shared) (n ∷ own) =
    left m (drain-Interleaves picks shared (n ∷ own))
drain-Interleaves (false ∷ picks) (m ∷ shared) (n ∷ own) =
    right n (drain-Interleaves picks (m ∷ shared) own)
