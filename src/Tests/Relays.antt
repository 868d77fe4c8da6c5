-- ===== src/Tests/Relays.antt =====
-- The relay between a stream of bytes and a websocket at a concrete input.
use xmpp_proxy.Prelude.{codes, [], ◌∷◌, ◌++◌, none, List, replicate}
use xmpp_proxy.Filter.{new, outside_stanza}
use xmpp_proxy.Filter.Reader.{eof}
use xmpp_proxy.Wire.{Sink}
use xmpp_proxy.Session.{async_read, web_socket_read}
use xmpp_proxy.Websocket.Messages.{async_write, web_socket_client_write, ping, pong, text}
use xmpp_proxy.Relay.{Side, from_incoming, from_outgoing}
use xmpp_proxy.Relay.Peers.{Ends}
use xmpp_proxy.Relay.Peers.Exchange.{Exchange}

abbrev quiet : Sink
quiet = record { sent = []; calls = 9 }

-- a client that sends one stanza, and a server that pings and then sends one
abbrev ends : Ends
ends = record {
  incoming = record {
    filter = new 20;
    reader = async_read (codes "<a/>") eof;
    writer = async_write quiet;
  };
  outgoing = record {
    filter = new 20;
    reader = web_socket_read (ping (codes "p") ∷ text (codes "<b/>") ∷ []) eof;
    writer = web_socket_client_write (record { sent = []; calls = 9 });
  };
  failed = none;
}

abbrev sides : List Side
sides = from_incoming ∷ from_outgoing ∷ []

abbrev relayed : Ends
relayed = record {
  incoming = record {
    filter = record {
      buf_size = 20;
      buf = codes "<a/>" ++ replicate 16 0;
      end_of_first_tag = 0;
      cnt = 0;
      tag_cnt = 0;
      state = outside_stanza;
    };
    reader = async_read [] eof;
    writer = async_write (record { sent = codes "<b/>"; calls = 7 });
  };
  outgoing = record {
    filter = record {
      buf_size = 20;
      buf = codes "<b/>" ++ replicate 16 0;
      end_of_first_tag = 0;
      cnt = 0;
      tag_cnt = 0;
      state = outside_stanza;
    };
    reader = web_socket_read [] eof;
    writer = web_socket_client_write (record {
      sent = text (codes "<a xmlns='jabber:client'/>") ∷ pong (codes "p") ∷ [];
      calls = 5;
    });
  };
  failed = none;
}
