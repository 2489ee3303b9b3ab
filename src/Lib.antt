-- ===== src/Lib.antt =====
-- Verification of the management console, the program that the broker serves to browsers.
--
-- The console is a set of scripts under src/management/www/js/. They share global variables: main.js runs
-- the page (a timer that refreshes it, the requests of the HTTP API, the replies), dispatcher.js maps
-- locations to requests and templates, global.js keeps what a user may see and the registries of the
-- templates, formatters.js makes text for HTML and URLs, prefs.js and base64.js make the credentials, and
-- theme-switcher.js changes the style sheets; oidc-oauth/helper.js starts and ends sessions with OAuth. A
-- location calls `render` with the requests of a page; `update` turns them into paths (`apply_state`),
-- asks for one after the other (`with_reqs`, `with_req`), sorts each reply (`check_bad_response`) and
-- shows the page.
--
-- Files, and the scripts under src/management/www/js/ that they model:
--   Console (main.js): the page's variables as the record `Console`, with the browser's intervals, the
--     requests in flight and what has happened; each function has its name in the source. Console/Timer
--     has the steps of a page as a relation; Console/Password models `change_own_password`. The two
--     synchronous calls of `update_warnings`, in the callback of `update`, may throw; their answers are the
--     function `api` of the record.
--   Response (main.js): `check_bad_response` and `update_status`, whose effects are values of `Action`.
--   Requests/Template, Requests/Query, Requests/Cast (main.js): `fill_path_template`, `check_password`,
--     `apply_state`, the casts of parameters, `rename_multifield`; Requests/Sync: `sync_req`, where the server is a
--     function, the functions on top of it, and `put_parameter` up to its call of `sync_put`.
--   Forms (main.js): `params_magic`. Forms/Fields has the names of the fields and their order,
--     Forms/Collapse the loop of `collapse_multifields` over them, Forms/Magic the rest. Where the source
--     pushes to a list that a parameter holds too, the model keeps the list once, in `lists`, and the
--     parameter holds its id. A number stays the literal that `parseFloat` reads; the keys, values and
--     types of fields are strings.
--   QueueTypes (global.js, main.js): `QUEUE_TYPE` and the functions on the type of a queue.
--   Warnings (main.js): what `update_warnings` shows.
--   Links (formatters.js): in Links/Names the names of connections, channels and exchanges and their white
--     space, in Links/Anchors the filter and the links to the pages of objects. What the pattern of the
--     filter finds, and the lower case, are functions of the record `Filter`.
--   Paging (main.js, formatters.js): the page, the size and the filter of a list, as preferences and as a
--     query. Which texts are patterns, and which are numbers above 500, is for functions to say.
--   Credentials (formatters.js): `fmt_uri_with_credentials`, which masks passwords.
--   Cells (formatters.js): the cells, headings and inputs of the tables of objects.
--   Base64 (base64.js): `encode` and `decode`, whose exceptions are values of `Error`.
--   Uri (formatters.js, prefs.js): `esc`, `encode_utf8`, `b64_encode_utf8`.
--   Markup (formatters.js): `fmt_escape_html0` and the two functions on top of it; in Markup/Wrap
--     `fmt_maybe_wrap`, with as many rounds as the text has characters, each of which takes one.
--   Access (global.js, formatters.js): `expand_user_tags`, `AccessControl`, `DisplayControl`.
--   States (formatters.js): states of objects and of virtual hosts, uptimes, `fmt_trunc`.
--   Navigation (main.js, global.js): `NAVIGATION` as a tree, `update_navigation` and the HTML it writes.
--   Registry (global.js): listeners and post-processors.
--   Prefs (prefs.js): the local storage, the cookie and the clock as the record `Browser`; each function
--     has its name in the source. Prefs/Session has the credentials and the marker of a session,
--     Prefs/Account what a user of the module sees of them, Prefs/Escape the `escape` and `unescape` of
--     the language.
--   Settings (main.js, global.js): sections that are opened and closed, the periods of charts, the
--     interval of updates, as pages keep them in the preferences.
--   OAuth (oidc-oauth/helper.js): the defaults of the settings, `oauth_initialize`, and in OAuth/Session
--     logins and logouts, where the answers of the OpenID client are arguments; OAuth/Readiness has the
--     check of the providers, OAuth/Notices its warnings, OAuth/Client the settings of the client.
--   Tables (formatters.js): AMQP values and tables as HTML and as flat text.
--   Numbers (formatters.js): numbers with commas between their thousands.
--   Theme (theme-switcher.js): the switch of the scheme.
--   Dispatcher (dispatcher.js): every route, its handler as the list of what it does.
--   Shared: texts, dictionaries, integers and lemmas that the others use. Tests: theorems at concrete
--     inputs.
--
-- A string is a list of UTF-16 code units, an object used as a dictionary a list of entries in the order
-- of insertion. Shifts and masks of base64.js are products, quotients and remainders by powers of 2; its
-- values stay below 2 ^ 24, where the 32-bit operators agree with them. All loops are structural
-- recursion, over the list or over the count that the source's loop has at its start. The digits of a
-- number n are made in n + 1 rounds, which are more than it has digits; its thousands are grouped in as
-- many rounds as its text has characters, each of which takes three.
--
-- The clock counts milliseconds: eight hours on the clock are taken for eight hours of time, a cookie
-- expires at whole seconds and is the only one of the console. In Prefs/Account the limit of a session
-- is at least one minute. Numbers in tables are whole.
--
-- Not modelled: the DOM and the templates, of which the model keeps what is shown or that a thing was
-- done; the bodies of replies, which are texts of the server's; the libraries (jQuery, Sammy and its
-- plugin title.js, EJS, flot, the OpenID client); the formatters that are in no file above; the drawing of
-- charts; and the broker, which is another program, written in Rust.
mod Shared
pub mod Base64
pub mod Uri
pub mod Prefs
pub mod Requests
pub mod Response
pub mod Console
pub mod Access
pub mod Markup
pub mod States
pub mod Navigation
pub mod Theme
pub mod Settings
pub mod OAuth
pub mod Tables
pub mod Forms
pub mod QueueTypes
pub mod Warnings
pub mod Links
pub mod Paging
pub mod Credentials
pub mod Cells
pub mod Numbers
pub mod Registry
pub mod Dispatcher
mod Tests
