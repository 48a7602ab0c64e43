-- ===== src/Clearing/Ewds.antt =====
-- amm-clearing-node/src/ewds_client.py: requests and responses over the message bus of the gateway.
pub mod Delays
pub mod Messages
pub mod Polling
pub mod Reading
pub mod Answers
pub mod Client
pub mod Canonical
mod Examples
use ammba_uoc.Prelude.{
  ℕ, zero, suc, String, Bool, true, false, ◌&&◌, ◌||◌, Option, none, some, List, [], ◌∷◌, ◌++◌, map,
  filter, concat, leb, ◌==◌, string_eq, bytes_eq, if◌then◌else◌, Result, ok, err, key_error,
  type_error, attribute_error, ewds_error, or_raise, map_result, ◌>>=◌, ◌>>◌,
}
use ammba_uoc.Prelude.Int.{ℤ}
use ammba_uoc.Prelude.Dict.{Dict, lookup}
use ammba_uoc.Prelude.Text.{codes, present}
use ammba_uoc.Arith.{Arith}
use ammba_uoc.Wire.Json.{
  Json, Fields, null, bool, int, float, string, array, object, nil, cons, end, field, get, truth,
  or_else, keys, to_list,
}
use ammba_uoc.Clearing.Orders.{default_to}
use ammba_uoc.Clearing.MarketIds.{Python, storage_market_id}
use ammba_uoc.Clearing.Dialects.{
  Printer, str_of, fields_of, InternalMarket, ewds_order_to_int_order, ewds_market_to_internal,
  is_empty,
}
use ammba_uoc.Clearing.Ewds.Delays.{poll_delays_ms, poll_backoff_factor}
use ammba_uoc.Clearing.Ewds.Messages.{Gateway, request, check_status}
use ammba_uoc.Clearing.Ewds.Polling.{poll_loop}

abbrev is_alnum : ℕ → Bool
is_alnum c = (leb b'0' c && leb c b'9') || (leb b'A' c && leb c b'Z') || (leb b'a' c && leb c b'z')

unfoldable pub client_id_for_suffix : List ℕ → List ℕ → List ℕ
client_id_for_suffix base suffix =
    let value = filter (λ c. is_alnum c) (base ++ suffix) in if is_empty value then base else value

-- The fields of the settings but the address of the gateway.
pub record EwdsConfig : Type 0 where
  pub request_fqcn : List ℕ
  pub response_fqcn : List ℕ
  pub topic_owner : List ℕ
  pub topic_version : List ℕ
  pub client_id : List ℕ
  pub timeout_ms : ℤ
  pub poll_interval_ms : ℤ
  pub poll_max_interval_ms : ℤ
  pub topics : Dict String (List ℕ × List ℕ)

-- What is published, but for the recipients, which are none; and the parameters of a poll.
pub record Transport : Type 0 where
  pub fqcn : List ℕ
  pub topic_name : List ℕ
  pub topic_version : List ℕ
  pub topic_owner : List ℕ
  pub transaction_id : List ℕ
  pub payload : List ℕ

pub record PollParams : Type 0 where
  pub fqcn : List ℕ
  pub topic_name : List ℕ
  pub topic_owner : List ℕ
  pub client_id : List ℕ

-- The id of a request (from the time and the process), `json.dumps`, and how the gateway behaves
-- in a query.
pub record Bus (F : Type 0) : Type 0 where
  pub request_id : String → List ℕ
  pub dumps : Json F → List ℕ
  pub gateway : Transport → PollParams → Gateway F

module _ {F : Type 0} ⦃a : Arith F⦄ (bus : Bus F) (config : EwdsConfig) where
  unfoldable pub delays : List ℤ
  unfolding poll_delays_ms poll_backoff_factor
  delays =
      default_to
        (poll_delays_ms {F = F} config.poll_interval_ms config.poll_max_interval_ms
          config.timeout_ms poll_backoff_factor)
        []

  unfoldable pub envelope : String → Fields F → Json F
  envelope operation payload = object (
      field "requestId" (string (bus.request_id operation))
        (field "operation" (string (codes operation)) (field "payload" (object payload) end)))

  unfoldable pub transport : List ℕ → String → Fields F → Transport
  unfolding envelope
  transport request_topic operation payload = record {
    fqcn = config.request_fqcn;
    topic_name = request_topic;
    topic_version = config.topic_version;
    topic_owner = config.topic_owner;
    transaction_id = bus.request_id operation;
    payload = bus.dumps (envelope operation payload);
  }

  unfoldable pub poll_params : List ℕ → PollParams
  unfolding client_id_for_suffix
  poll_params response_topic = record {
    fqcn = config.response_fqcn;
    topic_name = response_topic;
    topic_owner = config.topic_owner;
    client_id = client_id_for_suffix config.client_id response_topic;
  }

  unfoldable pub query : String → Fields F → Result (Json F)
  unfolding transport poll_params request check_status poll_loop delays
  query operation payload = do
    (request_topic, response_topic) ← or_raise (lookup operation config.topics) key_error
    let gateway =
        bus.gateway (transport request_topic operation payload) (poll_params response_topic)
    status ← request gateway.publish gateway.publish_uniform
    check_status status
    (poll_loop gateway (bus.request_id operation) config.timeout_ms delays 0).answer
