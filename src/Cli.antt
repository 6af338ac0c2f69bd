-- ===== src/Cli.antt =====
-- apps/sixchange_cli.cpp: the engine, the gateway and the codec put together. Standard output is the
-- text written so far; standard input is the list of its lines. The logger and the notes on standard
-- error are left out.
pub mod Conversations
pub mod Serving
pub mod Sessions
mod Examples
use mathlib.Core.Option
use sixchange.Base.{Bool, Option, List, [], ◌∷◌, ◌++◌, Bytes, Run, ok, ◌>>=◌, value, unexpected}
use sixchange.Core.Config.{Platform, default_order_book_config}
use sixchange.Core.Dispatcher.{EngineEventDispatcher, add_sink, EngineEventSink}
use sixchange.Core.Dispatcher
use sixchange.Engine.Sequencer.{instance_at_start}
use sixchange.Engine.MatchingEngine.{MatchingEngine}
use sixchange.Engine.MatchingEngine
use sixchange.Protocol.Messages.{OutboundMessage, OutboundMessageSink, rejected}
use sixchange.Protocol.TextCodec.{DecodeResult, decode, encode}
use sixchange.Gateway.OrderGateway
use sixchange.Gateway.OrderGateway.{Session, running, terminated, Exchange, handle}

-- `CliOutbound::on_outbound_message`
unfoldable pub on_outbound_message : OutboundMessageSink Bytes
on_outbound_message message out = out ++ (encode message ++ b'\n' ∷ [])

-- The dispatcher with the gateway as its only listener, and whether it was registered.
unfoldable pub dispatcher : EngineEventDispatcher (Session Bytes) × Bool
dispatcher =
    add_sink (record { capacity = 8; sinks = [] })
      (OrderGateway.on_engine_event on_outbound_message)

unfoldable pub engine_sink : EngineEventSink (Session Bytes)
unfolding dispatcher
engine_sink = Dispatcher.on_engine_event dispatcher.0

-- The objects at the start of `main`, `none` where the engine's constructor makes no engine.
unfoldable pub start : Platform → Option (Exchange Bytes)
start platform = Option.map with_engine (MatchingEngine.make platform 0 default_order_book_config)
  where
    with_engine : MatchingEngine → Exchange Bytes
    with_engine e = record {
      engine = e;
      sequencer = instance_at_start;
      session = running OrderGateway.make [];
    }

-- A message to the client from the loop itself.
unfoldable pub respond : OutboundMessage → Session Bytes → Session Bytes
unfolding on_outbound_message
respond message (running g out) = running g (on_outbound_message message out)
respond message terminated = terminated

-- The body of the loop after the call of `decode`.
unfoldable pub dispatch : DecodeResult → Exchange Bytes → Run (Exchange Bytes)
unfolding respond engine_sink
dispatch (unexpected rejection) x =
    ok (record x { session = respond (rejected rejection) x.session })
dispatch (value message) x = handle on_outbound_message engine_sink message x

-- The loop.
unfoldable pub serve : List Bytes → Exchange Bytes → Run (Exchange Bytes)
unfolding dispatch
serve [] x = ok x
serve (line ∷ lines) x = dispatch (decode line) x >>= serve lines
