-- ===== src/Store/Json.antt =====
-- What the session store uses of `encoding/json`: an interface. A raw message that is written as
-- part of a session is rewritten, without blanks and with `<`, `>` and `&` escaped, which `compact`
-- stands for; all else comes back as it was.
use wormzy.Prelude.{ℕ, Bool, Option, some, List, [], ◌∷◌, map, ◌≡◌}
use wormzy.Prelude.Dict.{Dict}
use wormzy.Session.{RendezvousSession, MsgPt}

abbrev pub compacted_queues : (List ℕ → List ℕ) → Dict (List MsgPt) → Dict (List MsgPt)
compacted_queues compact [] = []
compacted_queues compact ((role, queue) ∷ m) =
    (role, map (λ (item : MsgPt). record item { body = compact item.body }) queue)
    ∷ compacted_queues compact m

abbrev pub compacted : (List ℕ → List ℕ) → RendezvousSession → RendezvousSession
compacted compact sess = record sess { pending = compacted_queues compact sess.pending }

-- `V` is the type of the texts that Redis holds.
pub record Json (V : Type 0) : Type 0 where
  pub marshal : RendezvousSession → V
  pub unmarshal : V → Option RendezvousSession
  pub compact : List ℕ → List ℕ
  -- json.Valid
  pub valid : List ℕ → Bool
  pub unmarshal-marshal :
      (sess : RendezvousSession) → unmarshal (marshal sess) ≡ some (compacted compact sess)
