-- ===== src/Proxy/Handler/Data.antt =====
-- internal/controller: the parts of the proxy controller, its queries and its answers.
use tinyauth.Base.{ℕ, String, Bool, List, Option}
use tinyauth.Model.{App}
use tinyauth.Policy.{PolicyEngine}
use tinyauth.Policy.Apps.{LabelProvider}
use tinyauth.Proxy.{Url}

-- internal/controller/controller.go.
pub record UnauthorizedQuery : Type 0 where
  pub username : String
  pub resource : String
  pub group_err : Bool
  pub ip : String

pub record RedirectQuery : Type 0 where
  pub redirect_uri : String
  pub login_for : String

-- `url.Values`.
abbrev pub Values : Type 0
Values = List (String × List String)

-- What the handler calls: `url.Parse`, `query.Values` of the two queries (`none` is its error),
-- `Values.Encode`, the canonical spelling of a header, Base64, the reading of a file.
pub record Calls : Type 0 where
  pub parse_url : String → Option Url
  pub unauthorized_values : UnauthorizedQuery → Option Values
  pub redirect_values : RedirectQuery → Option Values
  pub encode : Values → String
  pub canonical : String → String
  pub base64 : String → String
  pub read_file : String → Option String

-- The parts of the controller, with the configured apps and the label provider of its `acls`.
pub record ProxyController : Type 0 where
  pub app_url : String
  pub apps : List (String × App)
  pub labels : LabelProvider
  pub policy_engine : PolicyEngine

abbrev pub Headers : Type 0
Headers = List (String × String)

-- `c.JSON` with a status, or `c.Redirect` with `http.StatusFound`.
pub data Reply : Type 0 where
  json : ℕ → Reply
  redirect : String → Reply

pub record Response : Type 0 where
  pub headers : Headers
  pub reply : Reply
