-- ===== src/Server.antt =====
-- What the wallet asks of the server (src/server.rs). The transport, its JSON and the server behind
-- it are a parameter: two requests on a state `W` of their own.
use webylib.Prelude.{Bool, Option, List}
use webylib.Prelude.Text.{Text}
use webylib.Prelude.Assoc.{Assoc}
use webylib.Store.Monad.{Action}
use webylib.Webcash.{PublicWebcash}

-- `legalese` always accepts the terms.
pub record ReplaceRequest : Type 0 where
  pub webcashes : List Text
  pub new_webcashes : List Text
  pub terms : Bool

pub record ReplaceResponse : Type 0 where
  pub status : Text

pub record HealthResult : Type 0 where
  pub spent : Option Bool
  pub amount : Option Text

pub record HealthResponse : Type 0 where
  pub status : Text
  pub results : Assoc HealthResult

-- `ServerClientTrait`, as far as the wallet's operations call it.
pub record Server (W : Type 0) : Type 0 where
  pub replace : ReplaceRequest → Action W ReplaceResponse
  pub health_check : List PublicWebcash → Action W HealthResponse
