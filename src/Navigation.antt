-- ===== src/Navigation.antt =====
-- frontend/src/components/layout and frontend/src/components/auth: the titles of routes, the sidebar, and where the
-- provider of the session sends the user.
pub mod Routes
pub mod Sidebar
pub mod Redirects
pub mod Title
pub mod Menu
