-- ===== src/Examples/PublishRuns.antt =====
-- Runs of PUBLISH and of the packets as the reader parses them.
use mymq.Base.{
  min, ◌≤◌, ◌<◌, ℕ, Bool, true, false, List, [], ◌∷◌, none, some, length, ◌≡◌, refl, arith,
}
use mymq.Error.{ok, panic}
use mymq.Error.Ensures.{NoPanic}
use mymq.Types.Blob.{Blob, as_ref, advance}
use mymq.Types.U16
use mymq.Types.VarU32
use mymq.Types.Utf8.{utf8}
use mymq.Types.Text.{encode_string, decode_string}
use mymq.Types.Topic.{any, encode_name, validate_name}
use mymq.Types.Written.{Written}
use mymq.V5.Qos
use mymq.V5.Qos.{Qos}
use mymq.V5.Header
use mymq.V5.Header.{FixedHeader}
use mymq.V5.Frame.{enc_opt}
use mymq.V5.Payload.{entries_loop}
use mymq.V5.Payload.Laws.{decode_string-Takes}
use mymq.V5.Payload.Safe.{entries_loop_ends}
use mymq.Types.Safe.{string-Safe}
use mymq.V5.Publish
use mymq.V5.Publish.{Publish, set_subscription_ids}
use mymq.V5.Publish.Props.{default_props, encode_publish_props}
use mymq.V5.Publish.Fields.{props_of, add_ids, set_subscription_ids_lem}
use mymq.V5.Publish.RoundTrip.{IsPublish, publish-Written}
use mymq.V5.Connect.Flags.{check_flags, unwrap_flags}
use mymq.V5.Connect.Flags.WillQos.{unwrap_flags-misread}
use mymq.V5.Subscription.{Subscription, on_every_subscribe}
use mymq.V5.Publish.Route.{route_qos, route_qos_lem}
use mymq.V5.Subscribe.Opt.{check_opt, unwrap_opt}
use mymq.V5.Subscribe.Opt.Rule.{unwrap_opt-rule}
use mymq.V5.Ping
use mymq.V5.Packet
use mymq.V5.Packet.{Packet, to_packet_type}
use mymq.V5.Packet.Dispatch.{decode-type}
use mymq.Packet.Reader.{fin}
use mymq.Packet.Reader.Framing.{IsRead}
use mymq.Packet.Parse.{parse}
use mymq.Packet.Parse.Panics.{unknown, parse-panics}
use mymq.Packet.Parse.Whole.{Parses, parse-Written}
use mymq.Examples.ConnRuns.{
  client, client-IsMqttText, client_known, known, none_known, hello, hello-IsConnect,
}

-- "c" with the payload 7, once at most.
abbrev news : Publish
news = record {
  retain = false;
  qos = Qos.at_most_once;
  duplicate = false;
  topic_name = client;
  packet_id = none;
  properties = none;
  payload = some (7 ∷ []);
}

name_valid : validate_name client ≡ ok tt
unfolding validate_name any utf8
name_valid = refl

id_known : (bytes : List ℕ) → enc_opt U16.encode none ≡ ok bytes → length bytes ≡ 0
unfolding enc_opt
id_known bytes e = let b : bytes ≡ [] = cc in rw b

name_known : encode_name client ≡ encode_string client
unfolding encode_name
name_known = rw name_valid refl

news-IsPublish : IsPublish news
news-IsPublish = record {
  name = client-IsMqttText;
  valid_name = name_valid;
  id = tt;
  props = tt;
  payload = omega arith;
  valid = unfold Publish.validate Publish.check_qos Publish.check_text in refl;
  short = λ name_blob props_blob id_bytes e e' e''. omega (
    arith,
    known (0 ∷ 1 ∷ client) name_blob client_known (rw name_known at e),
    known (0 ∷ []) props_blob (none_known encode_publish_props) e'',
    id_known id_bytes e',
  );
}

publish-Written_example : Written Publish.encode Publish.decode news
publish-Written_example = publish-Written news news-IsPublish

-- With a topic alias, an expiry interval and an id that it has already.
abbrev aliased : Publish
aliased = record news {
  properties = some (record default_props {
    topic_alias = some 3;
    message_expiry_interval = some 60;
    subscribtion_identifier = 1 ∷ [];
  });
}

set_subscription_ids_lem_example :
    (set_subscription_ids [] aliased ≡ aliased)
    × (set_subscription_ids (4 ∷ 9 ∷ []) aliased
        ≡ record aliased { properties = some (add_ids (4 ∷ 9 ∷ []) (props_of aliased.properties)) })
set_subscription_ids_lem_example = set_subscription_ids_lem 4 (9 ∷ []) aliased

-- Two strings of one byte.
abbrev two : List ℕ
two = 0 ∷ 1 ∷ b'a' ∷ 0 ∷ 1 ∷ b'b' ∷ []

entries_loop_ends_example :
    NoPanic (entries_loop decode_string 7 two 0)
    × (entries_loop decode_string 7 two 0 ≡ entries_loop decode_string 100 two 0)
entries_loop_ends_example =
    entries_loop_ends decode_string string-Safe decode_string-Takes 6 99 two 0 (omega arith)
      (omega arith)

-- A will at QoS 1 and a clean start.
unwrap_flags-misread_example : unwrap_flags 14 ≡ ok (true, true, Qos.exactly_once, false)
unwrap_flags-misread_example = unwrap_flags-misread 14 (omega arith) (unfold check_flags in refl)

-- Retained messages on a new subscription, at QoS 1.
unwrap_opt-rule_example :
    (qos : Qos) × (Qos.try_from 1 ≡ ok qos)
    × (unwrap_opt 17 ≡ ok (on_every_subscribe, false, false, qos))
unwrap_opt-rule_example = unwrap_opt-rule 17 (omega arith) (unfold check_opt Qos.try_from in refl)

ping_decodes : Packet.decode (192 ∷ 0 ∷ []) ≡ ok (Packet.ping_req, 2)
unfolding Packet.decode Packet.decode_as Packet.wrap Header.decode Header.validate Header.unwrap
    Ping.decode advance
ping_decodes = refl

decode-type_example :
    (fh : FixedHeader) × (taken : ℕ) × (retain : Bool) × (qos : Qos) × (dup : Bool) × (Header.decode
        (192 ∷ 0 ∷ [])
      ≡ ok (fh, taken))
    × (Header.unwrap fh ≡ ok (to_packet_type Packet.ping_req, retain, qos, dup))
decode-type_example = decode-type (192 ∷ 0 ∷ []) Packet.ping_req 2 ping_decodes

-- A packet of the type 0, and of two bytes.
abbrev strange : FixedHeader
strange = record { byte1 = 1; remaining_len = 0 }

strange-IsRead : IsRead (fin (1 ∷ 0 ∷ []) [] strange 16)
unfolding IsRead VarU32.decode VarU32.decode_loop
strange-IsRead =
    (omega arith, record { tail = 0 ∷ []; taken = 1; starts = refl; reads = refl; size = refl })

parse-panics_example :
    (unknown 1 ≡ true → parse (fin (1 ∷ 0 ∷ []) [] strange 16) ≡ panic)
    × (unknown 1 ≡ false → NoPanic (parse (fin (1 ∷ 0 ∷ []) [] strange 16)))
parse-panics_example = parse-panics (1 ∷ 0 ∷ []) [] strange 16 strange-IsRead (omega arith)

parse-Written_example :
    (blob : Blob) × (Packet.encode (Packet.connect hello) ≡ ok blob)
    × Parses (as_ref blob) (Packet.connect hello)
parse-Written_example = parse-Written (Packet.connect hello) hello-IsConnect

-- A subscriber at QoS 2.
abbrev reader_of_news : Subscription
reader_of_news = record {
  topic_filter = client;
  client_id = client;
  shard_id = 0;
  subscription_id = none;
  qos = Qos.exactly_once;
  no_local = false;
  retain_as_published = false;
  retain_forward_rule = on_every_subscribe;
}

route_qos_lem_example :
    (1 ≤ 2
      → (qos : Qos) × (route_qos reader_of_news news 1 ≡ ok qos)
        × (Qos.to_u8 qos ≡ min (min 1 (Qos.to_u8 news.qos)) (Qos.to_u8 reader_of_news.qos)))
    × (2 < 1 → route_qos reader_of_news news 1 ≡ panic)
route_qos_lem_example = route_qos_lem reader_of_news news 1
