-- ===== src/Workflow/Progress.antt =====
-- `update_node_progress`.
use dub_manga_studio.Common.Dict.{Dict}
use dub_manga_studio.Events
use dub_manga_studio.Workflow.Engine.{Engine}
