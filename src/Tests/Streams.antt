-- ===== src/Tests/Streams.antt =====
-- The event streams of both sides, and the fused ranking, at concrete inputs.
use vaultmcp.Prelude.{◌≡◌, some, List, [], ◌∷◌, ◌++◌, Text, codes, map, select, take, arith}
use vaultmcp.Prelude.{length, ◌≤◌, any, not, ◌&&◌, ◌||◌, false}
use vaultmcp.Master.Fusion.{SearchRow, reciprocal_rank_fusion}
use vaultmcp.Master.Fusion.Ranking.{at_path, has_path, DistinctPaths, reciprocal_rank_fusion_lem}
use vaultmcp.Tests.Data.{rough}
use vaultmcp.Prelude.{All}
use vaultmcp.Shared.Value.{Fields, text, field, end, get}
use vaultmcp.Prelude.{refl}
use vaultmcp.Prelude.Texts.{is_line_end}
use vaultmcp.Prelude.{strip}
use vaultmcp.Master.Sse.{event_name, format_sse}
use vaultmcp.Wire.{IsSendable, sent, parse_sse-sent}
use vaultmcp.Agent.Client.{parse_sse}
use vaultmcp.Agent.Client.Stream.{concat}
use vaultmcp.Master.Sse.{Notice, event, Subscriber, max_queue, wants}
use vaultmcp.Master.Sse.Queues.{deliver_all, queue-deliver_all}

abbrev wiki_reader : Subscriber
wiki_reader = record { number = 0; queue = []; prefix = some (codes "wiki/") }

abbrev two_notices : List Notice
two_notices =
    record {
      id = 1;
      event_type = codes "PageChanged";
      path = some (codes "wiki/a.md");
      global_version = 1;
    }
    ∷ record {
      id = 2;
      event_type = codes "PageChanged";
      path = some (codes "b.md");
      global_version = 2;
    }
    ∷ []

queue-deliver_all_example :
    (deliver_all two_notices wiki_reader).queue
    ≡ take max_queue
        ([] ++ map event (select (λ (n : Notice). wants (some (codes "wiki/")) n.path) two_notices))
queue-deliver_all_example = queue-deliver_all two_notices wiki_reader (omega arith)

abbrev search_row : Text → SearchRow
search_row p = record {
  path = p;
  page_type = codes "log";
  owners = [];
  updated = 1;
  version = 1;
  snippet = [];
}

reciprocal_rank_fusion_lem_example :
    (length (
        reciprocal_rank_fusion rough
          (search_row (codes "a") ∷ search_row (codes "b") ∷ [])
          (search_row (codes "b") ∷ [])
          60
          2)
      ≤ 2)
    × DistinctPaths rough (
        reciprocal_rank_fusion rough
          (search_row (codes "a") ∷ search_row (codes "b") ∷ [])
          (search_row (codes "b") ∷ [])
          60
          2)
    × ((any (at_path rough (codes "c")) (
            reciprocal_rank_fusion rough
              (search_row (codes "a") ∷ search_row (codes "b") ∷ [])
              (search_row (codes "b") ∷ [])
              60
              2)
          && not (
              any (has_path (codes "c")) (search_row (codes "a") ∷ search_row (codes "b") ∷ [])
              || any (has_path (codes "c")) (search_row (codes "b") ∷ [])))
        ≡ false)
reciprocal_rank_fusion_lem_example =
    reciprocal_rank_fusion_lem rough (search_row (codes "a") ∷ search_row (codes "b") ∷ [])
      (search_row (codes "b") ∷ []) 60 2 (codes "c")

-- The JSON of an event is its type here.
abbrev type_only : Fields → Text
type_only p = event_name (λ v. []) (get p (codes "event_type"))

abbrev of_type : Text → Fields
of_type t = field (text (codes "event_type")) (text t) end

abbrev two_events : List Fields
two_events = of_type (codes "PageChanged") ∷ of_type (codes "LogAppended") ∷ []

two_are-IsSendable : All (IsSendable type_only (λ v. []) (λ t. some (of_type t))) two_events
unfolding event_name is_line_end strip
two_are-IsSendable = (
  (text (codes "PageChanged"), refl, refl, refl, refl, refl),
  ((text (codes "LogAppended"), refl, refl, refl, refl, refl), tt),
)

abbrev first_piece : Text
first_piece = codes "event: Pa"

abbrev second_piece : Text
second_piece =
    codes "geChanged"
    ++ 10 ∷ codes "data: PageChanged"
    ++ 10 ∷ 10 ∷ codes "event: LogAppended"
    ++ 10 ∷ codes "data: LogAppended"
    ++ 10 ∷ 10 ∷ []

pieces_are_sent :
    first_piece ++ concat (second_piece ∷ [])
    ≡ sent type_only (λ v. []) (λ t. some (of_type t)) two_events
unfolding format_sse event_name
pieces_are_sent = refl

parse_sse-sent_example :
    parse_sse (λ t. some (of_type t)) [] (first_piece ∷ second_piece ∷ []) ≡ two_events
parse_sse-sent_example =
    parse_sse-sent type_only (λ v. []) (λ t. some (of_type t)) two_events first_piece
      (second_piece ∷ []) two_are-IsSendable pieces_are_sent
