-- ===== src/Cli/Sessions.antt =====
-- What a session answers, from the start of the program.
use sixchange.Cli.Serving.{printed, Serving}
use sixchange.Base.{ℕ, ◌≡◌, subst, List, [], ◌∷◌, ◌++◌, Bytes, Returns, Option, none, some}
use mathlib.Core.Option
use mathlib.Core.List.{append_assoc}
use sixchange.Engine.OrderBook.State.{OrderBook}
use sixchange.Engine.MatchingEngine
use sixchange.Engine.MatchingEngine.{MatchingEngine}
use sixchange.Protocol.Messages.{OutboundMessage}
use sixchange.Protocol.TextCodec.{encode}
use sixchange.Gateway.OrderGateway
use sixchange.Gateway.OrderGateway.{
  OrderGateway, Session, terminated, Exchange, handle, visit, handle_new_order, emit_rejection,
}
use sixchange.Cli.Conversations.{Conversation}
use sixchange.Cli.{serve}

-- A session: its replies make a conversation with its lines, and they are the output.
pub record Served (known : List ℕ) (e : MatchingEngine) (lines : List Bytes) (out : Bytes)
    (x : Exchange Bytes) : Type 0 where
  pub replies : List OutboundMessage
  pub conversation : Conversation known e lines replies
  pub last_known : List ℕ
  pub serving : Serving last_known (out ++ printed replies) x

joined :
    {known known' : List ℕ} {e e' : MatchingEngine} (line : Bytes) (lines : List Bytes)
    (out : Bytes) (reply : OutboundMessage)
    → ((replies : List OutboundMessage)
        → Conversation known' e' lines replies
        → Conversation known e (line ∷ lines) (reply ∷ replies))
    → (z : Exchange Bytes) → Served known' e' lines (out ++ (encode reply ++ b'\n' ∷ [])) z
    → Served known e (line ∷ lines) out z
joined line lines out reply more z s = record {
  replies = reply ∷ s.replies;
  conversation = more s.replies s.conversation;
  last_known = s.last_known;
  serving =
      subst (λ o. Serving s.last_known o z)
        (append_assoc out (encode reply ++ b'\n' ∷ []) (printed s.replies)) s.serving;
}

-- The rest of a session from any state in which the process serves.
abbrev Later : List Bytes → Type 0
Later lines =
    (known : List ℕ) (out : Bytes) (x : Exchange Bytes)
    → Serving known out x
    → Returns (Served known x.engine lines out) (serve lines x)

-- The program has just started: nothing is registered or written, and the first order id is 1.
abbrev Started : Option (Exchange Bytes) → Type 0
Started none = ⊥
Started (some x) = Serving [] [] x × (x.engine.next_order_id ≡ 1)

-- The program starts, with order id 1 to give, and its session is a conversation with the lines.
abbrev pub ServesAll : List Bytes → Option (Exchange Bytes) → Type 0
ServesAll lines none = ⊥
ServesAll lines (some x) =
    (x.engine.next_order_id ≡ 1) × Returns (Served [] x.engine lines []) (serve lines x)
