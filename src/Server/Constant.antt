-- ===== src/Server/Constant.antt =====
-- The handlers that need no data of the server, meilisearch-http/src/routes: health.rs, mod.rs, stats.rs,
-- stop_words.rs and synonym.rs. The files of the page for browsers, and what the build says of itself, are
-- arguments.
use transplant.Base.{Option, none, some, String}
use transplant.Base.Outcome.{Outcome, ok, panicked}
use transplant.HttpError.{ResponseError}
use transplant.Index.Json.{Value, Fields, string, field, end, object}
use transplant.Server.Routing.{
  Handler, get_stop_words, update_stop_words, delete_stop_words, get_synonyms, update_synonyms,
  delete_synonyms, get_health, index_stats, get_stats, get_version, load_html, load_css, running,
}

-- The answers with the status 200 that these handlers make.
pub data Reply : Type 0 where
  json : Value → Reply
  body : String → String → Reply

abbrev pub status_of : String → Reply
status_of text = json (object (field "status" (string text) end))

abbrev todo : Outcome ResponseError Reply
todo = panicked "not yet implemented"

-- What a handler of health.rs answers, if it is one.
unfoldable pub health_reply : Handler → Option (Outcome ResponseError Reply)
health_reply get_health = some (ok (status_of "available"))
health_reply _ = none

-- What a handler of mod.rs answers, if it is one.
unfoldable pub page_reply : String → String → Handler → Option (Outcome ResponseError Reply)
page_reply interface_html bulma_css load_html =
    some (ok (body "text/html; charset=utf-8" interface_html))
page_reply interface_html bulma_css load_css = some (ok (body "text/css; charset=utf-8" bulma_css))
page_reply interface_html bulma_css running = some (ok (status_of "MeiliSearch is running"))
page_reply interface_html bulma_css _ = none

pub record VersionResponse : Type 0 where
  pub commit_sha : String
  pub build_date : String
  pub pkg_version : String

abbrev pub version_fields : VersionResponse → Fields
version_fields v =
    field "commitSha" (string v.commit_sha)
      (field "buildDate" (string v.build_date) (field "pkgVersion" (string v.pkg_version) end))

-- What a handler of stats.rs answers, if it is one.
unfoldable pub stats_reply : VersionResponse → Handler → Option (Outcome ResponseError Reply)
stats_reply version index_stats = some todo
stats_reply version get_stats = some todo
stats_reply version get_version = some (ok (json (object (version_fields version))))
stats_reply version _ = none

-- What a handler of stop_words.rs answers, if it is one.
unfoldable pub stop_words_reply : Handler → Option (Outcome ResponseError Reply)
stop_words_reply get_stop_words = some todo
stop_words_reply update_stop_words = some todo
stop_words_reply delete_stop_words = some todo
stop_words_reply _ = none

-- What a handler of synonym.rs answers, if it is one.
unfoldable pub synonym_reply : Handler → Option (Outcome ResponseError Reply)
synonym_reply get_synonyms = some todo
synonym_reply update_synonyms = some todo
synonym_reply delete_synonyms = some todo
synonym_reply _ = none
