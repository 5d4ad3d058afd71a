-- ===== src/Llm/Hub/Config.antt =====
-- `get_config` and `get_tokenizer_path` of `HFWeightsSource`.
use computecloud_node.Prelude.{String, Option, none, some}
use computecloud_node.Python.{Result, ok, raise, ◌>>=◌, type_error, Value, obj, Fields}
use computecloud_node.Llm.Hub.{Library, Hub, fetch, content, cache_path}

module _ {W H T : Type 0} (lib : Library W H T) where
  -- `dict(...)` of what `json.load` gives.
  abbrev pub as_config : Value → Result Fields
  as_config (obj d) = ok d
  as_config _ = raise type_error

  abbrev pub config_loaded : Result Fields → Hub W H → Result Fields × Hub W H
  config_loaded (raise exc) h = (raise exc, h)
  config_loaded (ok config) h =
      (ok config, record h { source = record h.source { config = some config } })

  abbrev pub config_fetched : Result (Unit {0}) × Hub W H → Result Fields × Hub W H
  config_fetched (raise exc, h) = (raise exc, h)
  config_fetched (ok done, h) =
      config_loaded (content lib "config.json" h >>= lib.load >>= as_config) h

  abbrev pub config_unless : Option Fields → Hub W H → Result Fields × Hub W H
  config_unless (some config) h = (ok config, h)
  config_unless none h = config_fetched (fetch lib "config.json" h)

  -- `get_config`
  unfoldable pub hub_get_config : Hub W H → Result Fields × Hub W H
  unfolding fetch
  hub_get_config h = config_unless h.source.config h

  abbrev pub path_fetched : Result (Unit {0}) × Hub W H → Option String × Hub W H
  path_fetched (raise exc, h) = (none, h)
  path_fetched (ok done, h) = (some (cache_path h.source "tokenizer.json"), h)

  -- `get_tokenizer_path`: no path where the download raises.
  unfoldable pub hub_get_tokenizer_path : Hub W H → Option String × Hub W H
  unfolding fetch
  hub_get_tokenizer_path h = path_fetched (fetch lib "tokenizer.json" h)
